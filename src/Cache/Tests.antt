-- ===== src/Cache/Tests.antt =====
-- Runs of the limiter, and the theorems about it at concrete files.
use go_librespot_termux.Prelude.{◌≡◌, refl, true, false, List, [], ◌∷◌, codes, text_eq, Text}
use go_librespot_termux.Cache.{
  SizeLimiter, Walked, Removal, removed, new_size_limiter, find_file, put_file, delete_file, freed,
  add, touched, touch, oldest_loop, oldest, evict, without, prune_round, prune_loop, prune,
}
use go_librespot_termux.Cache.Entries.{total, IsAccurate}
use go_librespot_termux.Cache.Prune.{Prunes, prune-Prunes}

program : Unit {0}
unfolding text_eq new_size_limiter find_file put_file delete_file freed add touched touch
    oldest_loop oldest evict without prune_round prune_loop prune
program = tt

abbrev limiter : SizeLimiter
limiter = record {
  limit = 10;
  in_use = 15;
  files =
      (codes "a", record { size = 4; atime = 3 })
      ∷ (codes "b", record { size = 6; atime = 1 })
      ∷ (codes "c", record { size = 5; atime = 2 })
      ∷ [];
}

abbrev always : Text → Removal
always p = removed

limiter-IsAccurate : IsAccurate limiter
unfolding total text_eq
limiter-IsAccurate = record { counted = refl; keys = ((refl, (refl, tt)), ((refl, tt), (tt, tt))) }

pruned : (prune always limiter).1 ≡ codes "b" ∷ []
unfolding program
pruned = refl

-- A file that was touched is not the next to go.
touched_first : (prune always (touch 9 (codes "b") limiter)).1 ≡ codes "c" ∷ []
unfolding program
touched_first = refl

prune-Prunes_example :
    Prunes always limiter (prune always limiter).1 (prune always limiter).0
    × IsAccurate (prune always limiter).0
prune-Prunes_example = prune-Prunes always limiter limiter-IsAccurate

abbrev walk : List Walked
walk =
    record { path = codes "a"; temporary = false; size = 4; mod_time = 3 }
    ∷ record { path = codes "b"; temporary = true; size = 6; mod_time = 1 }
    ∷ []
