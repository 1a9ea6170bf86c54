-- ===== src/Registration/Sweeper/Marks.antt =====
-- internal/registration/sweeper.go: which servers a sweep marks stale, before it looks for those
-- that have expired.
use cruvero_mcp_gateway.Prelude.{
  nat_eq, ◌∙◌, ℕ, ◌≡◌, refl, sym, arith, ◌==◌, Bool, true, false, none, some, ok, eq_iff, not, ◌&&◌,
  ◌||◌, Option, if◌then◌else◌, List, [], ◌∷◌, any, keep,
}
use cruvero_mcp_gateway.Prelude.Int.{pos}
use cruvero_mcp_gateway.Prelude.Texts.{Text, text_eq}
use cruvero_mcp_gateway.Types.{ServerRecord, stale}
use cruvero_mcp_gateway.Registration.State.{transition, heartbeat_missed}
use cruvero_mcp_gateway.Registration.Store.{set_rows, Table, update_status}
use cruvero_mcp_gateway.Registration.Store.Rows.{row_at-set_rows, row_at, map_row}
use cruvero_mcp_gateway.Registration.Store.Overdue.{
  is_older, is_active, insert_by_heartbeat, by_heartbeat, list_stale,
}
use cruvero_mcp_gateway.Registration.Service.{when, health_changed, Outputs, Effect}
use cruvero_mcp_gateway.Registration.Sweeper.{Sweep, transition_server, mark_stale, sweep_stale}

-- Sorting keeps the rows.
any-insert :
    (p : ServerRecord → Bool) (r : ServerRecord) (rows : Table)
    → any p (insert_by_heartbeat r rows) ≡ (p r || any p rows)
unfolding any insert_by_heartbeat
any-insert p r [] = refl
any-insert p r (row ∷ rows) = ground (arith, any-insert p r rows)

pub any-by_heartbeat :
    (p : ServerRecord → Bool) (rows : Table) → any p (by_heartbeat rows) ≡ any p rows
unfolding any by_heartbeat
any-by_heartbeat p [] = refl
any-by_heartbeat p (row ∷ rows) =
    ground (arith, any-insert p row (by_heartbeat rows), any-by_heartbeat p rows)

pub any-keep :
    (p q : ServerRecord → Bool) (rows : Table)
    → any p (keep q rows) ≡ any (λ row. p row && q row) rows
unfolding any keep
any-keep p q [] = refl
any-keep p q (row ∷ rows) = ground (arith, any-keep p q rows)

abbrev pub is_at : Text → ServerRecord → Bool
is_at k row = row.id == k

-- What marking a row stale makes of it.
abbrev pub marked : ℕ → ServerRecord → ServerRecord
marked now row = record row { status = stale; updated_at = now }

abbrev pub HasNoFault : Sweep → Type 0
HasNoFault m =
    (m.stale_fault ≡ none) × (m.expired_fault ≡ none) × ((id : Text) → m.status_fault id ≡ none)

transition_server_marks :
    (out : Outputs) (m : Sweep) (r : ServerRecord) (rows : Table) (k : Text)
    → m.status_fault r.id ≡ none
    → is_active r.status ≡ true
    → (rows' : Table) × (told : List Effect) × (transition_server out m heartbeat_missed r rows
        ≡ some (rows', told))
      × (row_at k rows'
          ≡ (if k == r.id then map_row (marked m.now) (row_at k rows) else row_at k rows))
unfolding transition_server update_status transition
transition_server_marks out m r rows k f h = (
  set_rows r.id (marked m.now) rows,
  when out.has_publisher (health_changed r stale),
  ground arith,
  row_at-set_rows r.id k (marked m.now) rows (λ x e. e),
)

marked_twice :
    (now : ℕ) (o : Option ServerRecord)
    → map_row (marked now) (map_row (marked now) o) ≡ map_row (marked now) o
marked_twice now none = refl
marked_twice now (some r) = refl

beq_flip : (a b : Text) → (a == b) ≡ (b == a)
beq_flip a b = ground (arith, eq_iff a b, eq_iff b a)

mark_both :
    (now : ℕ) (o : Option ServerRecord) (b c c' : Bool)
    → c ≡ c'
    → (if b
        then map_row (marked now) (if c then map_row (marked now) o else o)
        else (if c then map_row (marked now) o else o))
      ≡ (if c' || b then map_row (marked now) o else o)
mark_both now o true true c' h = ground (arith, marked_twice now o)
mark_both now o true false c' h = ground arith
mark_both now o false true c' h = ground arith
mark_both now o false false c' h = ground arith

row_at-mark_stale :
    (out : Outputs) (m : Sweep) (k : Text) (found : List ServerRecord) (rows : Table)
    → ((id : Text) → m.status_fault id ≡ none)
    → any (λ row. not (is_active row.status)) found ≡ false
    → row_at k (mark_stale out m found rows).0
      ≡ (if any (is_at k) found then map_row (marked m.now) (row_at k rows) else row_at k rows)
unfolding mark_stale any
row_at-mark_stale out m k [] rows f h = refl
row_at-mark_stale out m k (r ∷ rs) rows f h =
    let (rows', told, e, at) = transition_server_marks out m r rows k (f r.id) (ground arith) in
    let rest = row_at-mark_stale out m k rs rows' f (ground arith) in
    let tail : (if any (is_at k) rs
          then map_row (marked m.now) (row_at k rows')
          else row_at k rows')
        ≡ (if r.id == k || any (is_at k) rs
            then map_row (marked m.now) (row_at k rows)
            else row_at k rows) =
      rw at (
        mark_both m.now (row_at k rows) (any (is_at k) rs) (k == r.id) (r.id == k)
          (beq_flip k r.id)) in
    rw (mark_stale, e) (rest ∙ tail)

abbrev pub is_overdue : ℕ → ℕ → ServerRecord → Bool
is_overdue now age row = is_older now age row && is_active row.status

none_inactive :
    (now age : ℕ) (rows : Table)
    → any (λ row. not (is_active row.status) && is_overdue now age row) rows ≡ false
unfolding any
none_inactive now age [] = refl
none_inactive now age (row ∷ rows) = ground (arith, none_inactive now age rows)

-- The first half of a sweep, `sweepStale`, where no statement fails and the threshold is not zero,
-- marks as stale the rows with the id of an active server whose last heartbeat is older than the
-- threshold, and changes no other row.
pub row_at-sweep_stale :
    (out : Outputs) (m : Sweep) (threshold : ℕ) (rows : Table) (k : Text)
    → HasNoFault m
    → (threshold == 0) ≡ false
    → row_at k (sweep_stale out m threshold rows).0 ≡ (
        if any (λ row. is_at k row && is_overdue m.now threshold row) rows
        then map_row (marked m.now) (row_at k rows)
        else row_at k rows)
unfolding sweep_stale list_stale
row_at-sweep_stale out m threshold rows k faults positive =
    let found = by_heartbeat (keep (is_overdue m.now threshold) rows) in
    let listed : list_stale m.stale_fault m.now (pos threshold) rows ≡ ok found =
      rw (faults.0, positive) refl in
    let all_active : any (λ row. not (is_active row.status)) found ≡ false =
      any-by_heartbeat _ (keep (is_overdue m.now threshold) rows)
      ∙ any-keep _ (is_overdue m.now threshold) rows
      ∙ none_inactive m.now threshold rows in
    let at : any (is_at k) found ≡ any (λ row. is_at k row && is_overdue m.now threshold row) rows =
      any-by_heartbeat (is_at k) (keep (is_overdue m.now threshold) rows)
      ∙ any-keep (is_at k) (is_overdue m.now threshold) rows in
    rw (sweep_stale, listed)
      (rw (sym at) (row_at-mark_stale out m k found rows faults.2 all_active))
