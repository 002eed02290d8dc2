-- ===== src/Engine/Backoff.antt =====
-- Which failed jobs `wait_until_next_backoff` waits for.
use realize.Prelude.{
  ℕ, ◌<◌, ◌≤◌, Bool, true, false, not, ◌&&◌, ◌≡◌, refl, sym, ap, ◌∙◌, Option, none, some, List, [],
  ◌∷◌, ◌++◌, arith, ltb, leb, ◌==◌, inl, inr, lt_eq_gt, Bool-cases, if◌then◌else◌,
}
use mathlib.Core.List.{append_assoc, append-nil}
use realize.Prelude.Table
use realize.Prelude.Table.{Table}
use realize.Dirty.{DirtyTables, FailedJobTableEntry, UnixTime, unix_time_max}
use realize.Engine.{backoff_loop, next_backoff}

-- Whether a time is after the lower bound.
unfoldable pub after : Option UnixTime → UnixTime → Bool
after none at = true
after (some bound) at = ltb bound at

-- The counters of the entries whose backoff ends at `at`, after the bound, in the table's order.
unfoldable pub ending_at : Option UnixTime → UnixTime → Table FailedJobTableEntry → List ℕ
unfolding after
ending_at lower at [] = []
ending_at lower at ((c, entry) ∷ failed) =
    let rest = ending_at lower at failed in
    if after lower entry.backoff_until && entry.backoff_until == at then c ∷ rest else rest

-- The least of `best` and the times after the bound in the table.
unfoldable pub least_after : Option UnixTime → Table FailedJobTableEntry → UnixTime → UnixTime
unfolding after
least_after lower [] best = best
least_after lower ((c, entry) ∷ failed) best =
    let rest = least_after lower failed best in
    if after lower entry.backoff_until && ltb entry.backoff_until rest
    then entry.backoff_until
    else rest

least_after_le :
    (lower : Option UnixTime) (failed : Table FailedJobTableEntry) (best : UnixTime)
    → least_after lower failed best ≤ best
unfolding least_after
least_after_le lower [] best = omega arith
least_after_le lower ((c, entry) ∷ failed) best = ground (arith, least_after_le lower failed best)

-- From a lower start.
least_after_from :
    (lower : Option UnixTime) (failed : Table FailedJobTableEntry) (at best : UnixTime)
    → at ≤ best
    → least_after lower failed at
      ≡ (if ltb at (least_after lower failed best) then at else least_after lower failed best)
unfolding least_after
least_after_from lower [] at best h = ground arith
least_after_from lower ((c, entry) ∷ failed) at best h =
    ground (arith, least_after_from lower failed at best h)

-- Every time after the bound is at least the least one.
least_after_all :
    (lower : Option UnixTime) (failed : Table FailedJobTableEntry) (best : UnixTime) (c : ℕ)
    (entry : FailedJobTableEntry)
    → Table.get c failed ≡ some entry
    → after lower entry.backoff_until ≡ true
    → least_after lower failed best ≤ entry.backoff_until
unfolding least_after Table.get
least_after_all lower [] best c entry e a = cc
least_after_all lower ((k, other) ∷ failed) best c entry e a =
    ground (arith, least_after_all lower failed best c entry)

-- A time that is less than the start is that of an entry.
least_after_found :
    (lower : Option UnixTime) (failed : Table FailedJobTableEntry) (best : UnixTime)
    → least_after lower failed best < best
    → ending_at lower (least_after lower failed best) failed ≡ []
    → ⊥
unfolding least_after ending_at
least_after_found lower [] best h e = omega arith
least_after_found lower ((c, entry) ∷ failed) best h e =
    ground (arith, least_after_found lower failed best)

-- The least time is the start or a time after the bound.
least_after_after :
    (lower : Option UnixTime) (failed : Table FailedJobTableEntry) (best : UnixTime)
    → least_after lower failed best < best
    → after lower (least_after lower failed best) ≡ true
unfolding least_after
least_after_after lower [] best h = ground arith
least_after_after lower ((c, entry) ∷ failed) best h =
    ground (arith, least_after_after lower failed best)

-- What the loop collects.
abbrev gathered : Option UnixTime → Table FailedJobTableEntry → UnixTime → List ℕ → List ℕ
gathered lower failed best counters =
    let least = least_after lower failed best in
    (if least == best then counters else []) ++ ending_at lower least failed

before_bound :
    (lower : Option UnixTime) (at : UnixTime)
    → (elim lower [ none ↦ false | some bound ↦ leb at bound ]) ≡ not (after lower at)
unfolding after
before_bound none at = refl
before_bound (some bound) at = ground arith

-- What the loop returns, from any state.
abbrev Returns : Option UnixTime → Table FailedJobTableEntry → UnixTime → List ℕ → Type 0
Returns lower failed best counters =
    backoff_loop lower failed best counters
    ≡ (least_after lower failed best, gathered lower failed best counters)

-- One more entry in front.
module _ (lower : Option UnixTime) (failed : Table FailedJobTableEntry) (c : ℕ)
    (entry : FailedJobTableEntry) where
  loop_step :
      (best : UnixTime) (counters : List ℕ)
      → backoff_loop lower ((c, entry) ∷ failed) best counters ≡ (
          if not (after lower entry.backoff_until)
          then backoff_loop lower failed best counters
          else if ltb best entry.backoff_until
          then backoff_loop lower failed best counters
          else if ltb entry.backoff_until best
          then backoff_loop lower failed entry.backoff_until (c ∷ [])
          else backoff_loop lower failed best (counters ++ c ∷ []))
  unfolding backoff_loop
  loop_step best counters = rw (before_bound lower entry.backoff_until) refl

  least_step :
      (best : UnixTime)
      → least_after lower ((c, entry) ∷ failed) best ≡ (
          if after lower entry.backoff_until
            && ltb entry.backoff_until (least_after lower failed best)
          then entry.backoff_until
          else least_after lower failed best)
  unfolding least_after
  least_step best = refl

  ending_step :
      (at : UnixTime)
      → ending_at lower at ((c, entry) ∷ failed) ≡ (
          if after lower entry.backoff_until && entry.backoff_until == at
          then c ∷ ending_at lower at failed
          else ending_at lower at failed)
  unfolding ending_at
  ending_step at = refl

  module _ (best : UnixTime) (counters : List ℕ) where
    Returns-same :
        after lower entry.backoff_until ≡ true
        → entry.backoff_until ≡ best
        → Returns lower failed best (counters ++ c ∷ [])
        → Returns lower ((c, entry) ∷ failed) best counters
    Returns-same a l r = ground (
      arith,
      r,
      loop_step best counters,
      least_step best,
      ending_step (least_after lower ((c, entry) ∷ failed) best),
      least_after_le lower failed best,
      append_assoc counters (c ∷ []) (ending_at lower best failed),
    )

    Returns-earlier :
        after lower entry.backoff_until ≡ true
        → entry.backoff_until < best
        → Returns lower failed entry.backoff_until (c ∷ [])
        → Returns lower ((c, entry) ∷ failed) best counters
    Returns-earlier a l r = ground (
      arith,
      r,
      loop_step best counters,
      least_step best,
      ending_step (least_after lower ((c, entry) ∷ failed) best),
      least_after_from lower failed entry.backoff_until best,
    )

    Returns-skipped :
        (after lower entry.backoff_until ≡ true → best < entry.backoff_until)
        → Returns lower failed best counters
        → Returns lower ((c, entry) ∷ failed) best counters
    Returns-skipped l r = ground (
      arith,
      r,
      loop_step best counters,
      least_step best,
      ending_step (least_after lower ((c, entry) ∷ failed) best),
      least_after_le lower failed best,
    )

backoff_loop_lem :
    (lower : Option UnixTime) (failed : Table FailedJobTableEntry) (best : UnixTime)
    (counters : List ℕ)
    → Returns lower failed best counters
unfolding backoff_loop least_after ending_at
backoff_loop_lem lower [] best counters = ground (arith, append-nil counters)
backoff_loop_lem lower ((c, entry) ∷ failed) best counters =
    elim (Bool-cases (after lower entry.backoff_until)) [
      | inr a ↦
          Returns-skipped lower failed c entry best counters (λ b. cc)
            (backoff_loop_lem lower failed best counters)
      | inl a ↦ elim (lt_eq_gt entry.backoff_until best) [
        | inl l ↦
            Returns-earlier lower failed c entry best counters a l
              (backoff_loop_lem lower failed entry.backoff_until (c ∷ []))
        | inr (inl l) ↦
            Returns-same lower failed c entry best counters a l
              (backoff_loop_lem lower failed best (counters ++ c ∷ []))
        | inr (inr l) ↦
            Returns-skipped lower failed c entry best counters (λ b. l)
              (backoff_loop_lem lower failed best counters)
      ]
    ]

abbrev below : UnixTime → UnixTime → List ℕ → Option (UnixTime × List ℕ)
below least most counters = if ltb least most then some (least, counters) else none

below_only :
    (least most : UnixTime) (counters : List ℕ)
    → below least most ((if least == most then [] else []) ++ counters) ≡ below least most counters
below_only least most counters = ground arith

some-below :
    {least most at : UnixTime} {found counters : List ℕ}
    → below least most found ≡ some (at, counters)
    → (least < most) × (least ≡ at) × (found ≡ counters)
some-below h = ground arith

none-below : (least most : UnixTime) (found : List ℕ) → below least most found ≡ none → most ≤ least
none-below least most found h = ground arith

next_backoff-least :
    (t : DirtyTables) (lower : Option UnixTime)
    → let least = least_after lower t.failed_job unix_time_max in
      next_backoff t lower ≡ below least unix_time_max (ending_at lower least t.failed_job)
unfolding next_backoff
next_backoff-least t lower =
    rw (backoff_loop_lem lower t.failed_job unix_time_max [])
      (below_only (least_after lower t.failed_job unix_time_max) unix_time_max _)

nonempty : (cs : List ℕ) → (cs ≡ [] → ⊥) → (c : ℕ) × (rest : List ℕ) × (cs ≡ c ∷ rest)
nonempty [] n = let no : ⊥ = n refl in elim no [ ]
nonempty (c ∷ rest) n = (c, rest, refl)

-- The wait is until the least backoff time after the lower bound: for exactly the jobs whose backoff
-- ends then, of which there is at least one, and no time after the bound is earlier. There is nothing to wait for only if no
-- backoff after the bound ends before the greatest time.
pub next_backoff_lem :
    (t : DirtyTables) (lower : Option UnixTime)
    → ((at : UnixTime) (counters : List ℕ)
        → next_backoff t lower ≡ some (at, counters)
        → (after lower at ≡ true)
          × (counters ≡ ending_at lower at t.failed_job)
          × ((c : ℕ) × (rest : List ℕ) × (counters ≡ c ∷ rest))
          × ((c : ℕ) (entry : FailedJobTableEntry)
              → Table.get c t.failed_job ≡ some entry
              → after lower entry.backoff_until ≡ true
              → at ≤ entry.backoff_until))
      × (next_backoff t lower ≡ none
          → (c : ℕ) (entry : FailedJobTableEntry) → Table.get c t.failed_job ≡ some entry
          → after lower entry.backoff_until ≡ true
          → unix_time_max ≤ entry.backoff_until)
unfolding next_backoff
next_backoff_lem t lower = rw (next_backoff-least t lower) (
  (λ at counters h.
      let (early, is_at, found) = some-below h in
      (
        rw (sym is_at) (least_after_after lower t.failed_job unix_time_max early),
        sym found ∙ ap (λ m. ending_at lower m t.failed_job) is_at,
        nonempty counters
            (λ e. least_after_found lower t.failed_job unix_time_max early (found ∙ e)),
        λ c entry g a.
            rw (sym is_at) (least_after_all lower t.failed_job unix_time_max c entry g a),
      )),
  λ h c entry g a.
      omega
        (arith, none-below _ _ _ h, least_after_all lower t.failed_job unix_time_max c entry g a),
)
