-- ===== src/Notifications/Cadence.antt =====
-- The days on which a rule of app/modules/notifications reaches a user: the first due day and every interval
-- after it.
use native.Mathlib.Nat.{mod-zero, mod-add-div', mul-mod_left}
use boat_backend.Prelude.{
  ℕ, ◌+◌, ◌*◌, ◌/◌, ◌%◌, ◌≡◌, ◌↔◌, refl, ap, ◌∙◌, true, false, Option, none, some, arith, ◌==◌,
  Bool-cases, inl, inr,
}
use boat_backend.Prelude.Int.{
  ℤ, pos, pos_part, neg_part, ◌+ℤ◌, ◌-ℤ◌, ltb_ℤ, eq_of_parts, +ℤ_parts, -ℤ_parts,
}
use boat_backend.Notifications.Rules.{NotificationScheduleRule}
use boat_backend.Notifications.Due.{first_due_day, matches_join_cadence, matches_interval, eq_ℤ}

-- The days between two notifications, 0 where there is only one.
abbrev pub step : Option ℤ → ℕ
step none = 0
step (some interval) = pos_part interval + neg_part interval

module _ (first days : ℤ) (reached : ltb_ℤ days first ≡ false) where
  matches-mod :
      (i : Option ℤ) → matches_interval first i days ≡ (pos_part (days -ℤ first) % step i == 0)
  unfolding matches_interval
  matches-mod none =
      ground (arith, reached, mod-zero (pos_part (days -ℤ first)), -ℤ_parts days first)
  matches-mod (some interval) = elim (Bool-cases (eq_ℤ interval (pos 0))) [
    | inr some_days ↦ rw some_days refl
    | inl zero_days ↦
        (let none_left : step (some interval) ≡ 0 = ground (arith, zero_days) in
          rw (zero_days, none_left, mod-zero (pos_part (days -ℤ first)))
            (ground (arith, reached, -ℤ_parts days first)))
  ]

  reached-parts : days ≡ first +ℤ pos (pos_part (days -ℤ first))
  reached-parts = ground (
    arith,
    reached,
    -ℤ_parts days first,
    +ℤ_parts first (pos (pos_part (days -ℤ first))),
    eq_of_parts days (first +ℤ pos (pos_part (days -ℤ first))),
  )

added_reached : (first : ℤ) (n : ℕ) → ltb_ℤ (first +ℤ pos n) first ≡ false
added_reached first n = ground (arith, +ℤ_parts first (pos n))

added_back : (first : ℤ) (n : ℕ) → pos_part ((first +ℤ pos n) -ℤ first) ≡ n
unfolding ◌+ℤ◌ ◌-ℤ◌
added_back first n = ground arith

whole_part : (n m : ℕ) → n % m ≡ 0 → n ≡ n / m * m
whole_part n m h = (let whole = mod-add-div' n m in ground (arith, whole, h))

module _ (rule : NotificationScheduleRule) (days : ℤ) where
  -- A rule whose first due day is `first` reaches a user on day `days` after joining exactly if `days` is
  -- `first` plus a number of intervals; without an interval, or with one of 0, on `first` only.
  pub matches_join_cadence_iff :
      (matches_join_cadence rule days ≡ true)
      ↔ ((k : ℕ) × (days ≡ first_due_day rule +ℤ pos (k * step rule.repeat_interval_days)))
  unfolding matches_join_cadence
  matches_join_cadence_iff = (there, λ (k, e). back k e)
    where
      first : ℤ
      first = first_due_day rule

      i : Option ℤ
      i = rule.repeat_interval_days

      there : matches_join_cadence rule days ≡ true → (k : ℕ) × (days ≡ first +ℤ pos (k * step i))
      there h = elim (Bool-cases (ltb_ℤ days first)) [
        | inl early ↦ absurd (ground (arith, early, h))
        | inr reached ↦
            (let whole : pos_part (days -ℤ first) % step i ≡ 0 =
                ground (arith, reached, h, matches-mod first days reached i) in
              (
                pos_part (days -ℤ first) / step i,
                reached-parts first days reached
                    ∙ ap (λ n. first +ℤ pos n)
                        (whole_part (pos_part (days -ℤ first)) (step i) whole),
              ))
      ]

      back : (k : ℕ) → days ≡ first +ℤ pos (k * step i) → matches_join_cadence rule days ≡ true
      back k e = rw e (
          ground (
            arith,
            added_reached first (k * step i),
            matches-mod first (first +ℤ pos (k * step i)) (added_reached first (k * step i)) i,
            added_back first (k * step i),
            mul-mod_left k (step i),
          ))
