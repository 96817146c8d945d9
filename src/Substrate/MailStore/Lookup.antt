-- ===== src/Substrate/MailStore/Lookup.antt =====
-- What the statements on the tables of events and leases do to a lookup by id.
use app_shak_hq.Prelude.{
  Bool, List, Option, [], arith, false, if◌then◌else◌, leb, nat_eq, none, refl, some, string_eq, ℕ,
  ◌++◌, ◌+◌, ◌<◌, ◌==◌, ◌∷◌, ◌≡◌, ◌≤◌,
}
use app_shak_hq.Substrate.Types.{EventRow}
use app_shak_hq.Substrate.MailStore.Tables.{
  Lease, delete_lease, find_event, find_lease, update_event,
}
use app_shak_hq.Substrate.MailStore.Claim.{back_to_pending, drop_expired, has_expired}

-- a write keeps the row's id
abbrev pub KeepsId : (EventRow → EventRow) → Type 0
KeepsId f = (e : EventRow) → (f e).id ≡ e.id

abbrev pub written : (EventRow → EventRow) → Option EventRow → Option EventRow
written f none = none
written f (some e) = some (f e)

pub find_event-update :
    (f : EventRow → EventRow) (i j : ℕ) (es : List EventRow)
    → KeepsId f
    → find_event j (update_event i f es)
      ≡ (if i == j then written f (find_event j es) else find_event j es)
unfolding find_event update_event
find_event-update f i j [] k = ground arith
find_event-update f i j (e ∷ es) k = ground (arith, k e, find_event-update f i j es k)

abbrev pub or_new : ℕ → EventRow → Option EventRow → Option EventRow
or_new j r none = if r.id == j then some r else none
or_new j r (some e) = some e

pub find_event-append :
    (j : ℕ) (r : EventRow) (es : List EventRow)
    → find_event j (es ++ r ∷ []) ≡ or_new j r (find_event j es)
unfolding find_event
find_event-append j r [] = refl
find_event-append j r (e ∷ es) = ground (arith, find_event-append j r es)

abbrev pub pending_again : Bool → Option EventRow → Option EventRow
pending_again b none = none
pending_again b (some e) = some (if b then record e { status = "PENDING" } else e)

pub find_event-back_to_pending :
    (now j : ℕ) (ls : List Lease) (es : List EventRow)
    → find_event j (back_to_pending now ls es)
      ≡ pending_again (has_expired now ls j) (find_event j es)
unfolding find_event back_to_pending
find_event-back_to_pending now j ls [] = refl
find_event-back_to_pending now j ls (e ∷ es) =
    ground (arith, find_event-back_to_pending now j ls es)

pub find_lease-delete :
    (i j : ℕ) (ls : List Lease)
    → find_lease j (delete_lease i ls) ≡ (if i == j then none else find_lease j ls)
unfolding find_lease delete_lease
find_lease-delete i j [] = ground arith
find_lease-delete i j (l ∷ ls) = ground (arith, find_lease-delete i j ls)

abbrev pub or_new_lease : ℕ → Lease → Option Lease → Option Lease
or_new_lease j l none = if l.event_id == j then some l else none
or_new_lease j l (some k) = some k

pub find_lease-append :
    (j : ℕ) (l : Lease) (ls : List Lease)
    → find_lease j (ls ++ l ∷ []) ≡ or_new_lease j l (find_lease j ls)
unfolding find_lease
find_lease-append j l [] = refl
find_lease-append j l (k ∷ ls) = ground (arith, find_lease-append j l ls)

-- `event_id` is the primary key
abbrev pub UniqueLeases : List Lease → Type 0
UniqueLeases [] = Unit {0}
UniqueLeases (l ∷ ls) = (find_lease l.event_id ls ≡ none) × UniqueLeases ls

abbrev pub if_live : ℕ → Option Lease → Option Lease
if_live now none = none
if_live now (some l) = if leb l.lease_expiry now then none else some l

pub find_lease-drop_expired :
    (now j : ℕ) (ls : List Lease)
    → UniqueLeases ls
    → find_lease j (drop_expired now ls) ≡ if_live now (find_lease j ls)
unfolding find_lease drop_expired
find_lease-drop_expired now j [] u = refl
find_lease-drop_expired now j (l ∷ ls) u = ground (arith, find_lease-drop_expired now j ls u.1)

abbrev pub is_over : ℕ → Option Lease → Bool
is_over now none = false
is_over now (some l) = leb l.lease_expiry now

pub has_expired-find_lease :
    (now j : ℕ) (ls : List Lease)
    → UniqueLeases ls
    → has_expired now ls j ≡ is_over now (find_lease j ls)
unfolding find_lease has_expired
has_expired-find_lease now j [] u = refl
has_expired-find_lease now j (l ∷ ls) u = ground (arith, has_expired-find_lease now j ls u.1)

pub delete_lease-UniqueLeases :
    (i : ℕ) (ls : List Lease) → UniqueLeases ls → UniqueLeases (delete_lease i ls)
unfolding delete_lease
delete_lease-UniqueLeases i [] u = tt
delete_lease-UniqueLeases i (l ∷ ls) u =
    ground (arith, delete_lease-UniqueLeases i ls u.1, find_lease-delete i l.event_id ls)

pub drop_expired-UniqueLeases :
    (now : ℕ) (ls : List Lease) → UniqueLeases ls → UniqueLeases (drop_expired now ls)
unfolding drop_expired
drop_expired-UniqueLeases now [] u = tt
drop_expired-UniqueLeases now (l ∷ ls) u =
    ground
      (arith, drop_expired-UniqueLeases now ls u.1, find_lease-drop_expired now l.event_id ls u.1)

pub append-UniqueLeases :
    (l : Lease) (ls : List Lease)
    → find_lease l.event_id ls ≡ none
    → UniqueLeases ls
    → UniqueLeases (ls ++ l ∷ [])
unfolding find_lease
append-UniqueLeases l [] h u = (refl, tt)
append-UniqueLeases l (k ∷ ls) h u =
    ground (arith, append-UniqueLeases l ls, find_lease-append k.event_id l ls)

-- The ids rise from `lo` and stay below `hi`.
abbrev pub IdsIn : ℕ → ℕ → List EventRow → Type 0
IdsIn lo hi [] = lo ≤ hi
IdsIn lo hi (e ∷ es) = (lo ≤ e.id) × IdsIn (e.id + 1) hi es

pub append-IdsIn :
    (lo hi : ℕ) (r : EventRow) (es : List EventRow)
    → r.id ≡ hi
    → IdsIn lo hi es
    → IdsIn lo (hi + 1) (es ++ r ∷ [])
append-IdsIn lo hi r [] e h = omega arith
append-IdsIn lo hi r (x ∷ es) e h = (h.0, append-IdsIn (x.id + 1) hi r es e h.1)

pub update_event-IdsIn :
    (f : EventRow → EventRow) (i lo hi : ℕ) (es : List EventRow)
    → KeepsId f
    → IdsIn lo hi es
    → IdsIn lo hi (update_event i f es)
unfolding update_event
update_event-IdsIn f i lo hi [] k h = h
update_event-IdsIn f i lo hi (e ∷ es) k h =
    ground (arith, k e, update_event-IdsIn f i (e.id + 1) hi es k h.1)

pub back_to_pending-IdsIn :
    (now lo hi : ℕ) (ls : List Lease) (es : List EventRow)
    → IdsIn lo hi es
    → IdsIn lo hi (back_to_pending now ls es)
unfolding back_to_pending
back_to_pending-IdsIn now lo hi ls [] h = h
back_to_pending-IdsIn now lo hi ls (e ∷ es) h =
    ground (arith, back_to_pending-IdsIn now (e.id + 1) hi ls es h.1)

pub find_event_outside :
    (j lo hi : ℕ) (es : List EventRow) → IdsIn lo hi es → j < lo → find_event j es ≡ none
unfolding find_event
find_event_outside j lo hi [] h b = refl
find_event_outside j lo hi (e ∷ es) h b = ground (arith, find_event_outside j (e.id + 1) hi es h.1)

pub find_event_fresh :
    (j lo hi : ℕ) (es : List EventRow) → IdsIn lo hi es → hi ≤ j → find_event j es ≡ none
unfolding find_event
find_event_fresh j lo hi [] h b = refl
find_event_fresh j lo hi (e ∷ es) h b =
    ground (arith, find_event_fresh j (e.id + 1) hi es h.1, below hi es h.1)
  where
    below : (hi : ℕ) (es : List EventRow) {lo : ℕ} → IdsIn lo hi es → lo ≤ hi
    below hi [] k = k
    below hi (x ∷ es) k = omega (arith, below hi es k.1)
