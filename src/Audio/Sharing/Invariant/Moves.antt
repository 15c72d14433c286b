-- ===== src/Audio/Sharing/Invariant/Moves.antt =====
-- audio/chunked-reader.go: what each step of a goroutine keeps.
use go_librespot_termux.Prelude.{
  ℕ, ◌+◌, ◌≡◌, ◌≢◌, refl, ap, sym, subst, Bool, false, List, map, Option, none, some, arith,
  Bool-cases, inl, inr, if_true, if_false, length-set, get_elem?, set, get_elem?-set_ne,
}
use go_librespot_termux.Audio.{
  Chunk, Fetched, err_closed, download_failed, fetched, fetch_err, mark_chunk_complete,
}
use go_librespot_termux.Audio.Completion.{
  loaded, loaded-set, IsFired, mark_chunk_complete-IsFired, maybe_fire_complete-kept,
}
use go_librespot_termux.Audio.Sharing.{
  Fetching, looking, waiting, downloading, marking, finishing, returned, SharedReader, put,
  put_flag, woken, broadcast, look, download_ended, mark,
}
use go_librespot_termux.Audio.Sharing.Owners.{
  quiet-IsOwned, claim-IsOwned, broadcast-IsOwned, broadcast-none_waiting, release-IsOwned,
}
use go_librespot_termux.Audio.Sharing.Owners.Basics.{IsBacked, IsOwned, NotOwner}
use go_librespot_termux.Audio.Sharing.Owners.Waking.{to_map}
use go_librespot_termux.Audio.Sharing.Invariant.Count.{
  marks, uncounted, uncounted-set, uncounted-map,
}

-- The chunks that are there are the ones counted and those that a goroutine is about to count; the
-- callback has started once if it is registered and all chunks are counted, and not at all otherwise.
pub record IsShared (w : SharedReader) : Type 0 where
  pub owned : IsOwned w.goroutines w.fetching w.reader.chunks
  pub counted : w.reader.completed_chunks + uncounted w.goroutines ≡ loaded w.reader.chunks
  pub fired : IsFired w.reader

-- A goroutine that stores nothing and downloads nothing goes on.
pub put-IsShared :
    (w : SharedReader) (i : ℕ) (h g : Fetching)
    → IsShared w
    → get_elem? w.goroutines i ≡ some h
    → NotOwner h
    → NotOwner g
    → IsBacked w.fetching w.reader.chunks g
    → marks h ≡ 0
    → marks g ≡ 0
    → IsShared (put i g w)
put-IsShared w i h g s e n n' b z z' = record {
  owned = quiet-IsOwned w.goroutines w.fetching w.reader.chunks i h g s.owned e n n' b;
  counted = omega (arith, s.counted, uncounted-set w.goroutines i h g e, z, z');
  fired = s.fired;
}

pub look-IsShared :
    (w : SharedReader) (i k : ℕ) (c : Chunk)
    → IsShared w
    → get_elem? w.goroutines i ≡ some (looking k)
    → get_elem? w.reader.chunks k ≡ some c
    → IsShared (look i k c w)
unfolding look
look-IsShared w i k (some d) s e f = elim (Bool-cases w.reader.closed) [
  | inl y ↦ subst IsShared (sym (if_true w.reader.closed _ _ y)) (back (fetch_err err_closed))
  | inr n ↦ subst IsShared (sym (if_false w.reader.closed _ _ n)) (back (fetched d))
]
  where
    back : (r : Fetched) → IsShared (put i (returned k r) w)
    back r =
        put-IsShared w i (looking k) (returned k r) s e (λ j t. absurd (cc)) (λ j t. absurd (cc)) tt
          refl refl
look-IsShared w i k none s e f = elim (Bool-cases w.reader.closed) [
  | inl y ↦ subst IsShared (sym (if_true w.reader.closed _ _ y)) (
      put-IsShared w i (looking k) (returned k (fetch_err err_closed)) s e (λ j t. absurd (cc))
        (λ j t. absurd (cc)) tt refl refl)
  | inr n ↦
      subst IsShared (sym (if_false w.reader.closed _ _ n)) (elim (Bool-cases (w.fetching k)) [
        | inl busy ↦ subst IsShared (sym (if_true (w.fetching k) _ _ busy)) (
            put-IsShared w i (looking k) (waiting k) s e (λ j t. absurd (cc)) (λ j t. absurd (cc))
              busy refl refl)
        | inr free ↦ subst IsShared (sym (if_false (w.fetching k) _ _ free)) (record {
          owned = claim-IsOwned w.goroutines w.fetching w.reader.chunks i k s.owned e free f;
          counted =
              omega (arith, s.counted, uncounted-set w.goroutines i (looking k) (downloading k) e);
          fired = s.fired;
        })
      ])
]

-- The goroutines after a broadcast, with the one that downloaded gone on.
pub released :
    (w : SharedReader) (i k : ℕ) (cs' : List Chunk) (g : Fetching)
    → IsShared w
    → get_elem? w.goroutines i ≡ some (downloading k)
    → NotOwner g
    → ((f' : ℕ → Bool) → IsBacked f' cs' g)
    → ((j : ℕ) → k ≢ j → get_elem? cs' j ≡ get_elem? w.reader.chunks j)
    → IsOwned (set (map (woken k) w.goroutines) i g) (put_flag w.fetching k false) cs'
released w i k cs' g s e n b c =
    release-IsOwned (map (woken k) w.goroutines) w.fetching w.reader.chunks cs' i k g
      (broadcast-IsOwned w.goroutines w.fetching w.reader.chunks k s.owned)
      (to_map w.goroutines k i (downloading k) e) (broadcast-none_waiting w.goroutines k) n b c

pub ended-IsShared :
    (w : SharedReader) (i k : ℕ) (o : Option (List ℕ))
    → IsShared w
    → get_elem? w.goroutines i ≡ some (downloading k)
    → IsShared (download_ended i k o w)
unfolding download_ended broadcast
ended-IsShared w i k none s e =
    let g = returned k (fetch_err (download_failed k)) in
    let e' = to_map w.goroutines k i (downloading k) e in
    record {
      owned = released w i k w.reader.chunks g s e (λ j t. absurd (cc)) (λ f. tt) (λ j n. refl);
      counted = omega (
        arith,
        s.counted,
        uncounted-map k w.goroutines,
        uncounted-set (map (woken k) w.goroutines) i (downloading k) g e',
      );
      fired = s.fired;
    }
ended-IsShared w i k (some d) s e =
    let cs' = set w.reader.chunks k (some d) in
    let e' = to_map w.goroutines k i (downloading k) e in
    let empty = (s.owned.backed i (downloading k) e).1 in
    record {
      owned =
          released w i k cs' (marking k d) s e (λ j t. absurd (cc)) (λ f. tt)
            (λ j n. get_elem?-set_ne w.reader.chunks (some d) n);
      counted = omega (
        arith,
        s.counted,
        uncounted-map k w.goroutines,
        uncounted-set (map (woken k) w.goroutines) i (downloading k) (marking k d) e',
        loaded-set w.reader.chunks k d empty,
      );
      fired = record {
        once = s.fired.once;
        complete = λ h.
            let (reg, all) = s.fired.complete h in
            (reg, omega (arith, all, length-set w.reader.chunks k (some d)));
        due =
            λ reg all. s.fired.due reg (omega (arith, all, length-set w.reader.chunks k (some d)));
      };
    }

pub mark-IsShared :
    (w : SharedReader) (i k : ℕ) (d : List ℕ)
    → IsShared w
    → get_elem? w.goroutines i ≡ some (marking k d)
    → IsShared (mark i k d w)
unfolding mark mark_chunk_complete
mark-IsShared w i k d s e =
    let (chunks, count) =
      maybe_fire_complete-kept
        (record w.reader { completed_chunks = w.reader.completed_chunks + 1 }) in
    record {
      owned =
          subst (λ cs. IsOwned (set w.goroutines i (finishing k d)) w.fetching cs) (sym chunks)
            (quiet-IsOwned w.goroutines w.fetching w.reader.chunks i (marking k d) (finishing k d)
              s.owned e (λ j t. absurd (cc)) (λ j t. absurd (cc)) tt);
      counted = omega (
        arith,
        s.counted,
        uncounted-set w.goroutines i (marking k d) (finishing k d) e,
        count,
        ap loaded chunks,
      );
      fired = mark_chunk_complete-IsFired w.reader s.fired;
    }
