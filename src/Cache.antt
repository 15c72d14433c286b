-- ===== src/Cache.antt =====
-- cache/limiter.go: the size limit of the cache of audio files. The removal of a file from the disk is
-- a parameter, and so is the clock. A Go map is a list of its entries, in the order in which it is
-- walked.
pub mod Entries
pub mod Prune
mod Tests
use go_librespot_termux.Prelude.{
  ℕ, zero, suc, ◌+◌, ◌-◌, Bool, true, false, List, [], ◌∷◌, Option, none, some, ltb, leb,
  if◌then◌else◌, length, Text, text_eq,
}

pub record LimiterEntry : Type 0 where
  pub size : ℕ
  pub atime : ℕ

abbrev pub Files : Type 0
Files = List (Text × LimiterEntry)

pub record SizeLimiter : Type 0 where
  pub limit : ℕ
  pub in_use : ℕ
  pub files : Files

-- What `os.Remove` answers.
pub data Removal : Type 0 where
  removed not_exist refused : Removal

unfoldable pub new_size_limiter : ℕ → SizeLimiter
new_size_limiter limit = record { limit = limit; in_use = 0; files = [] }

unfoldable pub find_file : Text → Files → Option LimiterEntry
find_file p [] = none
find_file p ((q, e) ∷ fs) = if text_eq q p then some e else find_file p fs

unfoldable pub put_file : Text → LimiterEntry → Files → Files
put_file p e [] = (p, e) ∷ []
put_file p e ((q, f) ∷ fs) = if text_eq q p then (p, e) ∷ fs else (q, f) ∷ put_file p e fs

unfoldable pub delete_file : Text → Files → Files
delete_file p [] = []
delete_file p ((q, f) ∷ fs) = if text_eq q p then fs else (q, f) ∷ delete_file p fs

-- A file that `init` walks over: its path, whether it ends in `.tmp`, its size and its time.
pub record Walked : Type 0 where
  pub path : Text
  pub temporary : Bool
  pub size : ℕ
  pub mod_time : ℕ

unfoldable pub register : Walked → SizeLimiter → SizeLimiter
unfolding put_file
register f s = if f.temporary then s else record s {
  files = put_file f.path (record { size = f.size; atime = f.mod_time }) s.files;
  in_use = s.in_use + f.size;
}

unfoldable pub init : List Walked → SizeLimiter → SizeLimiter
unfolding register
init [] s = s
init (f ∷ fs) s = init fs (register f s)

unfoldable pub freed : Option LimiterEntry → ℕ → ℕ
freed none n = n
freed (some e) n = n - e.size

unfoldable pub add : ℕ → Text → ℕ → SizeLimiter → SizeLimiter
unfolding find_file put_file freed
add now path size s = record s {
  files = put_file path (record { size = size; atime = now }) s.files;
  in_use = freed (find_file path s.files) s.in_use + size;
}

unfoldable pub touched : ℕ → Text → Option LimiterEntry → Files → Files
unfolding put_file
touched now path none fs = fs
touched now path (some e) fs = put_file path (record e { atime = now }) fs

unfoldable pub touch : ℕ → Text → SizeLimiter → SizeLimiter
unfolding find_file touched
touch now path s = record s { files = touched now path (find_file path s.files) s.files }

-- The loop over the map, with the oldest entry so far.
unfoldable pub oldest_loop : Text × LimiterEntry → Files → Text × LimiterEntry
oldest_loop o [] = o
oldest_loop o (f ∷ fs) = oldest_loop (if ltb f.1.atime o.1.atime then f else o) fs

unfoldable pub oldest : Files → Option (Text × LimiterEntry)
unfolding oldest_loop
oldest [] = none
oldest (f ∷ fs) = some (oldest_loop f fs)

module _ (remove : Text → Removal) where
  -- What a round does with the file that it removed, given the rounds after it.
  unfoldable pub evict :
      (SizeLimiter → SizeLimiter × List Text)
      → Text
      → Removal
      → SizeLimiter
      → SizeLimiter × List Text
  evict again path refused s = (s, [])
  evict again path removed s = let r = again s in (r.0, path ∷ r.1)
  evict again path not_exist s = let r = again s in (r.0, path ∷ r.1)

  unfoldable pub without : Text × LimiterEntry → SizeLimiter → SizeLimiter
  unfolding delete_file
  without f s = record s { files = delete_file f.0 s.files; in_use = s.in_use - f.1.size }

  unfoldable pub prune_round :
      (SizeLimiter → SizeLimiter × List Text)
      → Option (Text × LimiterEntry)
      → SizeLimiter
      → SizeLimiter × List Text
  unfolding evict without
  prune_round again none s = (s, [])
  prune_round again (some f) s = evict again f.0 (remove f.0) (without f s)

  -- Each round takes a file off the map, so its size is enough fuel.
  unfoldable pub prune_loop : ℕ → SizeLimiter → SizeLimiter × List Text
  unfolding oldest prune_round
  prune_loop zero s = (s, [])
  prune_loop (suc n) s =
      let more = prune_round (prune_loop n) (oldest s.files) s in
      if ltb s.limit s.in_use then more else (s, [])

  unfoldable pub prune : SizeLimiter → SizeLimiter × List Text
  unfolding prune_loop
  prune s = prune_loop (length s.files) s
