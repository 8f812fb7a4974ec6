-- ===== src/Notifications/Bound.antt =====
-- How occurrences and notifications of app/modules/notifications belong together, and that a new pair of
-- them keeps it.
use boat_backend.Prelude.{◌≡◌, ◌<◌, ◌==◌, false, List, [], ◌∷◌, ◌++◌, some, arith, All, All-append}
use boat_backend.Notifications.Job.{
  ScheduleOccurrenceKey, CreateNotificationCommand, OccurrenceRow, NotificationRow, key_eq,
}

-- No two rows have the same key.
abbrev pub IsDistinct : List OccurrenceRow → Type 0
IsDistinct [] = Unit
IsDistinct (row ∷ rows) = All (λ other. key_eq row.key other.key ≡ false) rows × IsDistinct rows

abbrev pub IsUnlike : NotificationRow → NotificationRow → Type 0
IsUnlike n other = (n.id == other.id) ≡ false

-- No two notifications have the same identifier.
abbrev pub IsNumbered : List NotificationRow → Type 0
IsNumbered [] = Unit
IsNumbered (n ∷ ns) = All (IsUnlike n) ns × IsNumbered ns

-- Each occurrence is bound to a notification, each in turn, with a content that may come from it.
abbrev pub IsBound :
    (ScheduleOccurrenceKey → CreateNotificationCommand → Type 0)
    → List OccurrenceRow
    → List NotificationRow
    → Type 0
IsBound From [] [] = Unit
IsBound From [] (n ∷ ns) = ⊥
IsBound From (row ∷ rows) [] = ⊥
IsBound From (row ∷ rows) (n ∷ ns) =
    (row.notification_id ≡ some n.id) × From row.key n.content × IsBound From rows ns

pub append-IsDistinct :
    (k : ScheduleOccurrenceKey) (new : OccurrenceRow) (rows : List OccurrenceRow)
    → new.key ≡ k
    → All (λ row. key_eq row.key k ≡ false) rows
    → IsDistinct rows
    → IsDistinct (rows ++ new ∷ [])
append-IsDistinct k new [] same h d = (tt, tt)
append-IsDistinct k new (row ∷ rows) same h d = (
  All-append (λ other. key_eq row.key other.key ≡ false) rows (new ∷ []) d.0 (rw same h.0, tt),
  append-IsDistinct k new rows same h.1 d.1,
)

pub append-IsNumbered :
    (new : NotificationRow) (ns : List NotificationRow)
    → All (λ n. n.id < new.id) ns
    → IsNumbered ns
    → IsNumbered (ns ++ new ∷ [])
append-IsNumbered new [] below d = (tt, tt)
append-IsNumbered new (n ∷ ns) below d = (
  All-append (IsUnlike n) ns (new ∷ []) d.0 (ground (arith, below.0), tt),
  append-IsNumbered new ns below.1 d.1,
)

pub append-IsBound :
    (From : ScheduleOccurrenceKey → CreateNotificationCommand → Type 0) (row : OccurrenceRow)
    (n : NotificationRow) (rows : List OccurrenceRow) (ns : List NotificationRow)
    → row.notification_id ≡ some n.id
    → From row.key n.content
    → IsBound From rows ns
    → IsBound From (rows ++ row ∷ []) (ns ++ n ∷ [])
append-IsBound From row n [] [] own origin b = (own, origin, tt)
append-IsBound From row n [] (x ∷ xs) own origin b = absurd b
append-IsBound From row n (r ∷ rs) [] own origin b = absurd b
append-IsBound From row n (r ∷ rs) (x ∷ xs) own origin b =
    (b.0, b.1, append-IsBound From row n rs xs own origin b.2)
