-- ===== src/Notifier/Learning.antt =====
-- What a subscriber knows of the paths of an index after the notifications of its history.
use realize.Prelude.{
  ℕ, suc, ◌+◌, ◌<◌, ◌≤◌, Bool, true, false, not, ◌&&◌, ◌||◌, ◌≡◌, ◌∙◌, sym, ap, refl, none, some,
  List, [], ◌∷◌, ◌++◌, arith, ◌⊎◌, inl, inr, Option-cases,
}
use realize.Prelude.Table
use realize.Prelude.Table.{Table, IsSorted, Below}
use realize.Prelude.Eq.{nat_eq, list_eq, list_beq_iff, lookup, Assoc}
use realize.ByteRange.{add64, u64_mod}
use realize.FilePath.{Text, FilePath}
use realize.Index.{
  IndexedFileTableEntry, HistoryTableEntry, RealIndex, last_history_index, get_file, has_file,
}
use realize.Index.Invariant.{IsValid, replay, after, same_key, has, last-Below}
use realize.Notifications.{Notification}
use realize.Notifier.{notification_of, notifications_of, send_notifications}

-- What a subscriber knows of one path: whether there is a file, and whether a catchup that is under
-- way has yet to report it.
pub record Known : Type 0 where
  pub present : Bool
  pub marked : Bool

-- A version that is reported is there; one that is removed or dropped is not. What a catchup does
-- not report is removed when the catchup is complete.
unfoldable pub learn : Text → Notification → Known → Known
learn k (Notification.add a n path t s h) b = record b { present = same_key path k || b.present }
learn k (Notification.replace a n path t s h g) b = record b {
  present = same_key path k || b.present;
}
learn k (Notification.remove a n path g) b = record b {
  present = not (same_key path k) && b.present;
}
learn k (Notification.drop a n path g) b = record b { present = not (same_key path k) && b.present }
learn k (Notification.catchup_start a) b = record b { marked = b.present }
learn k (Notification.catchup a path t s h) b = record {
  present = same_key path k || b.present;
  marked = not (same_key path k) && b.marked;
}
learn k (Notification.catchup_complete a n) b = record {
  present = b.present && not b.marked;
  marked = false;
}
learn k (Notification.connected a u) b = b

unfoldable pub learn_all : Text → List Notification → Known → Known
learn_all k [] b = b
learn_all k (n ∷ ns) b = learn_all k ns (learn k n b)

abbrev pub known : Bool → Known
known b = record { present = b; marked = false }

-- The entry and what is there now agree on another path, and what is there at the path is what is
-- there at an equal one.
same_key-has :
    (files : Assoc Text IndexedFileTableEntry) (path : FilePath) (k : Text)
    → same_key path k ≡ true
    → has files path.chars ≡ has files k
same_key-has files path k h = ap (has files) ((list_beq_iff path.chars k).0 h)

reported_there :
    (s b past now : Bool)
    → (s ≡ true → true ≡ now)
    → (b ≡ past) ⊎ (b ≡ now)
    → ((s || b) ≡ s || past) ⊎ ((s || b) ≡ now)
reported_there true b past now f h = inl refl
reported_there false b past now f h = h

kept_out :
    (s b past now : Bool)
    → (s ≡ true → false ≡ now)
    → (b ≡ past) ⊎ (b ≡ now)
    → (b ≡ s || past) ⊎ (b ≡ now)
kept_out true true past now f h = inl refl
kept_out true false past now f h = inr (f refl)
kept_out false b past now f h = h

taken_out :
    (s b past now : Bool)
    → (s ≡ true → false ≡ now)
    → (b ≡ past) ⊎ (b ≡ now)
    → ((not s && b) ≡ not s && past) ⊎ ((not s && b) ≡ now)
taken_out true b past now f h = inl refl
taken_out false b past now f h = h

now_out :
    (s b past now : Bool)
    → (s ≡ true → false ≡ now)
    → (b ≡ past) ⊎ (b ≡ now)
    → ((not s && b) ≡ s || past) ⊎ ((not s && b) ≡ now)
now_out true b past now f h = inr (f refl)
now_out false b past now f h = h

put_back :
    (s b past now : Bool)
    → (s ≡ true → true ≡ now)
    → (b ≡ past) ⊎ (b ≡ now)
    → ((s || b) ≡ not s && past) ⊎ ((s || b) ≡ now)
put_back true b past now f h = inr (f refl)
put_back false b past now f h = h

left_there :
    (s b past now : Bool)
    → (s ≡ true → true ≡ now)
    → (b ≡ past) ⊎ (b ≡ now)
    → (b ≡ not s && past) ⊎ (b ≡ now)
left_there true true past now f h = inr (f refl)
left_there true false past now f h = inl refl
left_there false b past now f h = h

there :
    (files : Assoc Text IndexedFileTableEntry) (path : FilePath) (k : Text)
    (e : IndexedFileTableEntry)
    → lookup path.chars files ≡ some e
    → same_key path k ≡ true
    → true ≡ has files k
there files path k e h s =
    sym (ap (λ o. elim o [ none ↦ false | some x ↦ true ]) h) ∙ same_key-has files path k s

not_there :
    (files : Assoc Text IndexedFileTableEntry) (path : FilePath) (k : Text)
    → lookup path.chars files ≡ none
    → same_key path k ≡ true
    → false ≡ has files k
not_there files path k h s =
    sym (ap (λ o. elim o [ none ↦ false | some x ↦ true ]) h) ∙ same_key-has files path k s

-- What one entry of the history does: the subscriber knows what is there now, or what the history
-- says after the entry.
learn_entry :
    (i : RealIndex) (n : ℕ) (ev : HistoryTableEntry) (k : Text) (b past : Bool)
    → (b ≡ past) ⊎ (b ≡ has i.files k)
    → (c : Bool) × ((c ≡ after ev k past) ⊎ (c ≡ has i.files k))
      × ((ns : List Notification)
          → learn_all k (elim (notification_of i n ev) [ none ↦ ns | some m ↦ m ∷ ns ]) (known b)
            ≡ learn_all k ns (known c))
unfolding learn_all learn notification_of get_file has_file
learn_entry i n (HistoryTableEntry.add path) k b past h =
    elim (Option-cases (lookup path.chars i.files)) [
      | inl q ↦ (
        b,
        kept_out (same_key path k) b past (has i.files k) (not_there i.files path k q) h,
        λ ns. rw (q) refl,
      )
      | inr (e, q) ↦ (
        same_key path k || b,
        reported_there (same_key path k) b past (has i.files k) (there i.files path k e q) h,
        λ ns. rw (q) refl,
      )
    ]
learn_entry i n (HistoryTableEntry.replace path g) k b past h =
    elim (Option-cases (lookup path.chars i.files)) [
      | inl q ↦ (
        not (same_key path k) && b,
        now_out (same_key path k) b past (has i.files k) (not_there i.files path k q) h,
        λ ns. rw (q) refl,
      )
      | inr (e, q) ↦ (
        same_key path k || b,
        reported_there (same_key path k) b past (has i.files k) (there i.files path k e q) h,
        λ ns. rw (q) refl,
      )
    ]
learn_entry i n (HistoryTableEntry.remove path g) k b past h =
    elim (Option-cases (lookup path.chars i.files)) [
      | inl q ↦ (
        not (same_key path k) && b,
        taken_out (same_key path k) b past (has i.files k) (not_there i.files path k q) h,
        λ ns. rw (q) refl,
      )
      | inr (e, q) ↦ (
        same_key path k || b,
        put_back (same_key path k) b past (has i.files k) (there i.files path k e q) h,
        λ ns. rw (q) refl,
      )
    ]
learn_entry i n (HistoryTableEntry.drop path g) k b past h =
    elim (Option-cases (lookup path.chars i.files)) [
      | inl q ↦ (
        not (same_key path k) && b,
        taken_out (same_key path k) b past (has i.files k) (not_there i.files path k q) h,
        λ ns. rw (q) refl,
      )
      | inr (e, q) ↦ (
        b,
        left_there (same_key path k) b past (has i.files k) (there i.files path k e q) h,
        λ ns. rw (q) refl,
      )
    ]

learn_history :
    (i : RealIndex) (history : Table HistoryTableEntry) (k : Text) (b past : Bool)
    → (b ≡ past) ⊎ (b ≡ has i.files k)
    → replay history k past ≡ has i.files k
    → learn_all k (notifications_of i history) (known b) ≡ known (has i.files k)
unfolding notifications_of replay learn_all
learn_history i [] k b past (inl h) r = ap known (h ∙ r)
learn_history i [] k b past (inr h) r = ap known h
learn_history i ((n, ev) ∷ history) k b past h r =
    let (c, d, e) = learn_entry i n ev k b past h in
    e (notifications_of i history) ∙ learn_history i history k c (after ev k past) d r

range_below :
    (a lo : ℕ) (t : Table HistoryTableEntry) → IsSorted lo t → a ≤ lo → Table.range 0 a t ≡ []
unfolding Table.range
range_below a lo [] s h = refl
range_below a lo ((k, v) ∷ t) s h = ground (arith, range_below a (suc k) t s.1)

-- A sorted history is what lies before an index and what lies from it on.
range_split :
    (a b lo : ℕ) (t : Table HistoryTableEntry)
    → IsSorted lo t
    → Below b t
    → t ≡ Table.range 0 a t ++ Table.range a b t
unfolding Table.range
range_split a b lo [] s h = refl
range_split a b lo ((k, v) ∷ t) s h =
    let rest = range_split a b (suc k) t s.1 h.1 in
    let low = range_below a (suc k) t s.1 in ground (arith, rest, low)

replay-join :
    (before since : Table HistoryTableEntry) (k : Text) (b : Bool)
    → replay (before ++ since) k b ≡ replay since k (replay before k b)
unfolding replay
replay-join [] since k b = refl
replay-join ((n, ev) ∷ before) since k b = replay-join before since k (after ev k b)

learn_range :
    (i : RealIndex) (seen : ℕ) (k : Text)
    → IsValid i
    → let last = last_history_index i.history in
      learn_all k
        (notifications_of i (Table.range (suc seen) (suc last) i.history))
        (known (replay (Table.range 0 (suc seen) i.history) k false))
      ≡ known (has i.files k)
learn_range i seen k v =
    let last = last_history_index i.history in
    let before = Table.range 0 (suc seen) i.history in
    let since = Table.range (suc seen) (suc last) i.history in
    let split =
      range_split (suc seen) (suc last) 0 i.history v.logged.history_sorted
        (last-Below 0 i.history v.logged.history_sorted) in
    learn_history i since k (replay before k false) (replay before k false) (inl refl) (
      sym (replay-join before since k false)
      ∙ ap (λ t. replay t k false) (sym split)
      ∙ v.logged.replayed k)

-- In an index whose history is valid and whose next index is in range, a subscriber that knows of a
-- path what the history says up to the index that it has seen last, and no catchup under way, knows
-- whether the path is in the index when it got the notifications from there up to the last index
-- of the history, although they report what the index holds now and leave out what is no longer so.
pub send_notifications-learnt :
    (i : RealIndex) (seen : ℕ) (k : Text)
    → IsValid i
    → last_history_index i.history + 1 < u64_mod
    → seen ≤ last_history_index i.history
    → learn_all k
        (send_notifications i seen (last_history_index i.history))
        (known (replay (Table.range 0 (suc seen) i.history) k false))
      ≡ known (has i.files k)
unfolding send_notifications
send_notifications-learnt i seen k v h l =
    let last = last_history_index i.history in
    let a : add64 seen 1 ≡ suc seen = omega arith in
    let b : add64 last 1 ≡ suc last = omega arith in rw (a, b) (learn_range i seen k v)
