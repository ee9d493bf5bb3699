-- ===== src/Tests/Locks.antt =====
-- Locks of one key, escalation and the wait-for graph, on small states.
use crabstash.Base.{In, ◌↔◌, nat_eq, ◌≡◌, refl, true, false, some, [], ◌∷◌, arith, all, retain}
use crabstash.Base.Map
use crabstash.Base.Map.{Map}
use crabstash.Lock.Mode.{LockMode, is_compatible, can_upgrade_to, Excludes, Covers, IsWeaker}
use crabstash.Lock.Error.{ok}
use crabstash.Lock.Entry
use crabstash.Lock.Entry.{
  LockEntry, Wake, Progress, returned, waiting, try_acquire, acquire, upgrade, release, get_mode,
  is_held_by, wait_loop, is_compatible_with_holders, already_held, can_upgrade,
}
use crabstash.Lock.Entry.Safety.{
  IsCompatible, Keeps, after, release-IsCompatible, acquire-IsCompatible,
}
use crabstash.Lock.Entry.Waiting.{
  Settled, woken, Admits, acquire_progress, acquire-Settled, try_acquire-Covers_iff,
}

-- Transaction 1 holds the key in mode S, and transaction 2 in mode IS.
abbrev two_holders : LockEntry
two_holders = record {
  key = 7 ∷ [];
  holders = (1, LockMode.s) ∷ (2, LockMode.is) ∷ [];
  wait_queue = [];
}

two_holders-IsCompatible : IsCompatible two_holders
unfolding Map.get is_compatible
two_holders-IsCompatible = record { apart = λ i j a b ne gi gj. ground arith }

abbrev drop_both : LockEntry → LockEntry
drop_both e = (release (release e 1).0 2).0

drop_both-Keeps : Keeps drop_both
drop_both-Keeps e inv = release-IsCompatible (release e 1).0 2 (release-IsCompatible e 1 inv)

-- A wake-up after the others have released the key.
abbrev released : Wake
released = record { expired = false; others = drop_both; timed_out = false }

abbrev unchanged : LockEntry → LockEntry
unchanged e = e

-- The first request waits, and is granted after the wake-up.
acquire_after_wait :
    acquire two_holders 3 LockMode.x true unchanged (released ∷ [])
    ≡ returned (ok tt) (record { key = 7 ∷ []; holders = (3, LockMode.x) ∷ []; wait_queue = [] })
unfolding acquire wait_loop try_acquire release Map.get Map.insert Map.remove
    is_compatible_with_holders is_compatible all Entry.remove_from_queue retain already_held
acquire_after_wait = refl

acquire-IsCompatible_example :
    IsCompatible (after (acquire two_holders 3 LockMode.x true unchanged (released ∷ [])))
acquire-IsCompatible_example =
    acquire-IsCompatible two_holders 3 LockMode.x true unchanged (released ∷ []) (λ e inv. inv)
      (drop_both-Keeps, tt) two_holders-IsCompatible

abbrev one_writer : LockEntry
one_writer = record { key = 7 ∷ []; holders = (4, LockMode.x) ∷ []; wait_queue = 5 ∷ [] }

one_writer-IsCompatible : IsCompatible one_writer
unfolding Map.get
one_writer-IsCompatible = record { apart = λ i j a b ne gi gj. ground arith }

one_writer-x : get_mode one_writer 4 ≡ some LockMode.x
unfolding get_mode Map.get
one_writer-x = refl

refused_x : (try_acquire two_holders 3 LockMode.x).1 ≡ false
unfolding try_acquire already_held Map.get is_compatible_with_holders is_compatible all
refused_x = refl

granted_s : (try_acquire two_holders 3 LockMode.s).1 ≡ true
unfolding try_acquire already_held Map.get is_compatible_with_holders is_compatible all
granted_s = refl

acquire-Settled_example :
    Settled 3 LockMode.x (acquire two_holders 3 LockMode.x true unchanged (released ∷ []))
acquire-Settled_example =
    acquire-Settled two_holders 3 LockMode.x true unchanged (released ∷ []) refused_x

released-Admits :
    Admits 3 LockMode.x
      (woken (released ∷ []) (unchanged (record two_holders { wait_queue = 3 ∷ [] })))
unfolding release Map.remove
released-Admits h m = absurd m

acquire_progress_example :
    (e' : LockEntry) × (acquire two_holders 3 LockMode.x false unchanged (released ∷ [])
      ≡ returned (ok tt) e')
    × (get_mode e' 3 ≡ some LockMode.x)
    × (¬ In 3 e'.wait_queue)
acquire_progress_example =
    acquire_progress two_holders 3 LockMode.x unchanged (released ∷ []) [] refused_x released-Admits

-- Transaction 6 holds the key in mode SIX.
abbrev six_holder : LockEntry
six_holder = record { key = 7 ∷ []; holders = (6, LockMode.six) ∷ []; wait_queue = [] }

six_holder-x : (try_acquire six_holder 6 LockMode.x).1 ≡ true
unfolding try_acquire already_held can_upgrade_to Map.get crabstash.Lock.Mode.mode_beq
six_holder-x = refl

try_acquire-Covers_iff_example :
    (held : LockMode) × (get_mode (try_acquire six_holder 6 LockMode.x).0 6 ≡ some held)
    × (Covers held LockMode.x ↔ (¬ IsWeaker held LockMode.x))
    × (IsWeaker held LockMode.x → (try_acquire six_holder 6 LockMode.x).0 ≡ six_holder)
try_acquire-Covers_iff_example = try_acquire-Covers_iff six_holder 6 LockMode.x six_holder-x

s-to-x : can_upgrade_to LockMode.s LockMode.x ≡ true
unfolding can_upgrade_to
s-to-x = refl

six-Excludes-x : Excludes LockMode.six LockMode.x
unfolding is_compatible
six-Excludes-x = record { strict = ground arith; covers = λ c k. ground arith }
