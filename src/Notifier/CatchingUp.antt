-- ===== src/Notifier/CatchingUp.antt =====
-- What a subscriber knows of the paths of an index after a catchup, and after `subscribe`.
use realize.Prelude.{
  ℕ, suc, ◌+◌, ◌<◌, ◌≤◌, Bool, true, false, not, ◌&&◌, ◌||◌, ◌≡◌, ◌∙◌, sym, ap, refl, Option, some,
  List, [], ◌∷◌, ◌++◌, ltb, ◌==◌, if◌then◌else◌, arith, ◌⊎◌, inl, inr, Bool-cases,
}
use realize.Prelude.Table
use realize.Prelude.Table.{Table, IsSorted, Below}
use realize.Prelude.Eq.{nat_eq, list_eq, list_beq, list_beq_iff, lookup, Assoc}
use realize.ByteRange.{u64_mod}
use realize.Data.{Arena}
use realize.FilePath.{Text, FilePath, parse}
use realize.Index.{IndexedFileTableEntry, RealIndex, last_history_index, all_files}
use realize.Index.Invariant.{IsValid, replay, has}
use realize.Notifications.{Notification, Progress, Uuid}
use realize.Notifier.{send_notifications, catchup_files, catchup, last_seen_of, subscribe}
use realize.Notifier.Learning.{Known, known, learn, learn_all, send_notifications-learnt}

or_true : (b : Bool) → (b || true) ≡ true
or_true true = refl
or_true false = refl

lookup_cons :
    (j k : Text) (e : IndexedFileTableEntry) (files : Assoc Text IndexedFileTableEntry)
    → has ((j, e) ∷ files) k ≡ list_beq j k || has files k
unfolding lookup
lookup_cons j k e files = ground arith

all_files_cons :
    (j : Text) (e : IndexedFileTableEntry) (files : Assoc Text IndexedFileTableEntry)
    (path : FilePath)
    → parse j ≡ some path
    → all_files ((j, e) ∷ files) ≡ (path, e) ∷ all_files files
unfolding all_files
all_files_cons j e files path q = rw (all_files, q) refl

abbrev knowing : Bool → Bool → Known
knowing b c = record { present = b; marked = c }

-- What is known after one more file.
one_more :
    (s h p m : Bool)
    → knowing (h || (s || p)) (not h && (not s && m)) ≡ knowing ((s || h) || p) (not (s || h) && m)
one_more true true p m = refl
one_more true false p m = refl
one_more false true p m = refl
one_more false false p m = refl

reported :
    (files : Assoc Text IndexedFileTableEntry) (a : Arena) (k : Text) (ns : List Notification)
    (p m : Bool)
    → ((j : Text) → has files j ≡ true → parse j ≡ some (record { chars = j }))
    → learn_all k (catchup_files a (all_files files) ++ ns) (knowing p m)
      ≡ learn_all k ns (knowing (has files k || p) (not (has files k) && m))
unfolding learn_all learn catchup_files all_files lookup
reported [] a k ns p m h = refl
reported ((j, e) ∷ files) a k ns p m h =
    let first : has ((j, e) ∷ files) j ≡ true =
      lookup_cons j j e files ∙ ap (λ x. x || has files j) ((list_beq_iff j j).1 refl) in
    let later : (l : Text) → has files l ≡ true → parse l ≡ some (record { chars = l }) = λ l q.
      h l (lookup_cons j l e files ∙ ap (λ x. list_beq j l || x) q ∙ or_true (list_beq j l)) in
    let s = list_beq j k in
    ap (λ l. learn_all k (catchup_files a l ++ ns) (knowing p m))
      (all_files_cons j e files (record { chars = j }) (h j first))
    ∙ reported files a k ns (s || p) (not s && m) later
    ∙ ap (learn_all k ns) (
        one_more s (has files k) p m
        ∙ ap (λ x. knowing (x || p) (not x && m)) (sym (lookup_cons j k e files)))

completed : (h p : Bool) → knowing ((h || p) && not (not h && p)) false ≡ known h
completed true true = refl
completed true false = refl
completed false true = refl
completed false false = refl

-- After the notifications of a catchup of a valid index, a subscriber knows whether a path is in the
-- index, whatever it knew before.
pub catchup-learnt :
    (i : RealIndex) (n : ℕ) (k : Text) (before : Known)
    → IsValid i
    → learn_all k (catchup i n) before ≡ known (has i.files k)
unfolding catchup learn_all learn
catchup-learnt i n k before v =
    reported i.files i.arena k (Notification.catchup_complete i.arena n ∷ []) before.present
      before.present v.paths
    ∙ completed (has i.files k) before.present

subscribe_from :
    (i : RealIndex) (seen : ℕ) (k : Text) (before : Known)
    → IsValid i
    → let current = last_history_index i.history in
      ((seen == 0 && ltb seen current) ≡ true)
        ⊎ (learn_all k (send_notifications i seen current) before ≡ known (has i.files k))
      → learn_all k
          (if seen == 0 && ltb seen current
            then catchup i current
            else send_notifications i seen current)
          before
        ≡ known (has i.files k)
subscribe_from i seen k before v (inl q) =
    rw (q) (catchup-learnt i (last_history_index i.history) k before v)
subscribe_from i seen k before v (inr q) =
    elim (Bool-cases (seen == 0 && ltb seen (last_history_index i.history))) [
      | inl c ↦ rw (c) (catchup-learnt i (last_history_index i.history) k before v)
      | inr c ↦ rw (c) q
    ]

-- In a valid index whose next history index is in range, after the notifications of `subscribe` a
-- subscriber knows of each path whether it is in the index, if before it knew what the history says
-- up to the index it has seen last and had no catchup under way, or if it has seen nothing of this
-- store and the history is not empty: then it may have known anything.
pub subscribe-learnt :
    (i : RealIndex) (uuid : Uuid) (progress : Option Progress) (k : Text) (before : Known)
    → IsValid i
    → last_history_index i.history + 1 < u64_mod
    → last_seen_of uuid progress ≤ last_history_index i.history
    → (before ≡ known (replay (Table.range 0 (suc (last_seen_of uuid progress)) i.history) k false))
      ⊎ ((last_seen_of uuid progress ≡ 0) × (0 < last_history_index i.history))
    → learn_all k (subscribe i uuid progress) before ≡ known (has i.files k)
unfolding subscribe learn_all learn
subscribe-learnt i uuid progress k before v h l (inl q) =
    subscribe_from i (last_seen_of uuid progress) k before v (
      inr (
        ap
          (learn_all k
            (send_notifications i (last_seen_of uuid progress) (last_history_index i.history)))
          q
        ∙ send_notifications-learnt i (last_seen_of uuid progress) k v h l))
subscribe-learnt i uuid progress k before v h l (inr (z, p)) =
    subscribe_from i (last_seen_of uuid progress) k before v (inl (ground (arith, z, p)))
