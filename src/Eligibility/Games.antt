-- ===== src/Eligibility/Games.antt =====
-- The games that are eligible, in terms of what the platforms state of them
-- (apps/backend/src/services/game-eligibility.ts).
use smile4money.Common.{
  ◌==◌, ==_iff, ℕ, ◌≡◌, ◌↔◌, ◌⊎◌, refl, sym, ap, ◌∙◌, Bool, true, false, ◌&&◌, not, Option, none,
  some, List, [], ◌∷◌, ◌++◌, arith, Bool-cases, inl, inr,
}
use smile4money.Common.Keys.{◌===◌}
use smile4money.Common.OrderedSet.{member}
use smile4money.Common.Text.{Text, text, text_eq, text_beq_iff, is_empty, is_digit, all_chars}
use smile4money.Eligibility.{
  supported_variants, supported_speeds, unverifiable_end_statuses, unknown, Clock,
  check_game_eligibility, lacks_clock, LichessPayload, lichess_metadata, ChessDotComPayload,
  chessdotcom_metadata, clock_of, variant_of, before_plus, after_plus, is_whole, is_increment,
}
use smile4money.Eligibility.Rules.{states_one_of, states_none_of, eligible_lem, clock_follows}

abbrev pub IsAmong : List Text → Text → Type 0
IsAmong [] s = ⊥
IsAmong (v ∷ vs) s = (s ≡ v) ⊎ IsAmong vs s

-- A field that is there has the property.
abbrev pub IsStated : (Text → Type 0) → Option Text → Type 0
IsStated P none = Unit
IsStated P (some s) = P s

abbrev pub HasDigits : Text → Type 0
HasDigits s = (is_empty s ≡ false) × (all_chars is_digit s ≡ true)

-- Seconds, such as 600, or seconds with an increment, such as 180+2.
abbrev pub HasClock : Text → Type 0
HasClock s =
    (base : Text) × HasDigits base
    × ((s ≡ base) ⊎ ((increment : Text) × HasDigits increment × (s ≡ base ++ (b'+' ∷ increment))))

member_iff : (vs : List Text) (s : Text) → (member s vs ≡ true) ↔ IsAmong vs s
unfolding member
member_iff [] s = (λ h. ground (arith, h), λ h. absurd h)
member_iff (v ∷ vs) s = (
  λ h. elim (Bool-cases (v === s)) [
    | inl e ↦ inl (sym ((text_beq_iff v s).0 e))
    | inr e ↦ inr ((member_iff vs s).0 (ground (arith, h, e)))
  ],
  λ h. elim h [
    | inl e ↦ ground (arith, (text_beq_iff v s).1 (sym e))
    | inr k ↦ ground (arith, (member_iff vs s).1 k)
  ],
)

states_one_iff :
    (vs : List Text) (o : Option Text) → (states_one_of vs o ≡ true) ↔ IsStated (IsAmong vs) o
states_one_iff vs none = (λ h. tt, λ h. refl)
states_one_iff vs (some s) = member_iff vs s

states_none_iff :
    (vs : List Text) (o : Option Text)
    → (states_none_of vs o ≡ true) ↔ IsStated (λ s. IsAmong vs s → ⊥) o
states_none_iff vs none = (λ h. tt, λ h. refl)
states_none_iff vs (some s) = (
  λ h k. ground (arith, h, (member_iff vs s).1 k),
  λ h. elim (Bool-cases (member s vs)) [
    | inl e ↦ absurd (h ((member_iff vs s).0 e))
    | inr e ↦ ground (arith, e)
  ],
)

abbrev rules_for_standard : List Text
rules_for_standard = text "chess" ∷ text "standard" ∷ []

variant_iff :
    (rules : Option Text)
    → (states_one_of supported_variants (variant_of rules) ≡ true)
      ↔ IsStated (IsAmong rules_for_standard) rules
unfolding member
variant_iff none = (λ h. tt, λ h. refl)
variant_iff (some r) = elim (Bool-cases (r === text "chess")) [
  | inl e ↦
      let same = (text_beq_iff r (text "chess")).0 e in
      (λ h. inl same, λ h. rw e (unfold member in refl))
  | inr e ↦ (
    λ h. inr ((member_iff supported_variants r).0 (ground (arith, h, e))),
    λ h. elim h [
      | inl k ↦ absurd (ground (arith, e, (text_beq_iff r (text "chess")).1 k))
      | inr k ↦ ground (arith, e, (member_iff supported_variants r).1 k)
    ],
  )
]

both : (a b : Bool) {A B : Type 0} → (a ≡ true) ↔ A → (b ≡ true) ↔ B → ((a && b) ≡ true) ↔ (A × B)
both a b p q =
    (λ h. (p.0 (ground (arith, h)), q.0 (ground (arith, h))), λ h. ground (arith, p.1 h.0, q.1 h.1))

-- A text is what stands before the plus sign and what stands behind it.
abbrev rejoined : Text → Option Text → Text
rejoined base none = base
rejoined base (some t) = base ++ (b'+' ∷ t)

rejoin_char :
    (c : ℕ) (s : Text) (o : Option Text)
    → rejoined (before_plus s) o ≡ s
    → rejoined (c ∷ before_plus s) o ≡ c ∷ s
rejoin_char c s none h = ap (λ t. c ∷ t) h
rejoin_char c s (some t) h = ap (λ t. c ∷ t) h

rejoined_lem : (s : Text) → rejoined (before_plus s) (after_plus s) ≡ s
rejoined_lem [] = refl
rejoined_lem (c ∷ s) = elim (Bool-cases (c == b'+')) [
  | inl e ↦ rw e (ap (λ d. d ∷ s) (sym ((==_iff c b'+').0 e)))
  | inr e ↦ rw e (rejoin_char c s (after_plus s) (rejoined_lem s))
]

parts_of_sum :
    (base t : Text)
    → all_chars is_digit base ≡ true
    → (before_plus (base ++ (b'+' ∷ t)) ≡ base) × (after_plus (base ++ (b'+' ∷ t)) ≡ some t)
parts_of_sum [] t h = (refl, refl)
parts_of_sum (c ∷ s) t h = ground (arith, parts_of_sum s t)

parts_of_number :
    (base : Text)
    → all_chars is_digit base ≡ true
    → (before_plus base ≡ base) × (after_plus base ≡ none)
parts_of_number [] h = (refl, refl)
parts_of_number (c ∷ s) h = ground (arith, parts_of_number s)

whole_iff : (s : Text) → (is_whole s ≡ true) ↔ HasDigits s
whole_iff s = (λ h. ground (arith, h), λ h. ground (arith, h.0, h.1))

matched :
    (s : Text)
    → not (lacks_clock (clock_of s)) ≡ (is_whole (before_plus s) && is_increment (after_plus s))
unfolding clock_of
matched s = ground arith

clock_sound :
    (base : Text) (o : Option Text) (s : Text)
    → rejoined base o ≡ s
    → is_whole base ≡ true
    → is_increment o ≡ true
    → HasClock s
clock_sound base none s e w k = (base, (whole_iff base).0 w, inl (sym e))
clock_sound base (some t) s e w k = (base, (whole_iff base).0 w, inr (t, (whole_iff t).0 k, sym e))

clock_iff : (s : Text) → (not (lacks_clock (clock_of s)) ≡ true) ↔ HasClock s
clock_iff s = (
  λ h.
      let m = sym (matched s) ∙ h in
      clock_sound (before_plus s) (after_plus s) s (rejoined_lem s) (ground (arith, m))
        (ground (arith, m)),
  λ (base, d, shape). matched s ∙ (elim shape [
    | inl e ↦
        let (p, q) = parts_of_number base d.1 in rw (e, p, q) (ground (arith, (whole_iff base).1 d))
    | inr (t, k, e) ↦
        let (p, q) = parts_of_sum base t d.1 in
        rw (e, p, q) (ground (arith, (whole_iff base).1 d, (whole_iff t).1 k))
  ]),
)

optional_clock_iff :
    (o : Option Text)
    → (not (lacks_clock (elim o [ none ↦ unknown | some s ↦ clock_of s ])) ≡ true)
      ↔ IsStated HasClock o
optional_clock_iff none = (λ h. tt, λ h. refl)
optional_clock_iff (some s) = clock_iff s

module _ (raw : LichessPayload) where
  lichess_lem : (check_game_eligibility (lichess_metadata (some raw))).eligible ≡ (
      (states_one_of supported_variants raw.variant && states_one_of supported_speeds raw.speed)
      && states_none_of unverifiable_end_statuses raw.status)
  unfolding lichess_metadata
  lichess_lem = ground (arith, eligible_lem (lichess_metadata (some raw)), clock_follows raw)

module _ (raw : ChessDotComPayload) where
  chessdotcom_lem : (check_game_eligibility (chessdotcom_metadata (some raw))).eligible ≡ (
      (states_one_of supported_variants (variant_of raw.rules)
        && states_one_of supported_speeds raw.time_class)
      && not (lacks_clock (elim raw.time_control [ none ↦ unknown | some s ↦ clock_of s ])))
  unfolding chessdotcom_metadata
  chessdotcom_lem = ground (arith, eligible_lem (chessdotcom_metadata (some raw)))

-- A game of Lichess is eligible exactly when the variant that it states is standard, the time control is
-- bullet, blitz, rapid or classical, and the status is not aborted, noStart or unknownFinish, where a
-- field that is left out is no obstacle; its clock is not asked for. A game of Chess.com is eligible
-- exactly when it states the rules chess or standard, one of these time controls, and for a clock a
-- number of seconds, with or without a plus sign and an increment, where again a field may be left out.
pub eligible_games :
    (raw : LichessPayload) (other : ChessDotComPayload)
    → let speeds = text "bullet" ∷ text "blitz" ∷ text "rapid" ∷ text "classical" ∷ [] in
      let endings = text "aborted" ∷ text "noStart" ∷ text "unknownFinish" ∷ [] in
      (((check_game_eligibility (lichess_metadata (some raw))).eligible ≡ true) ↔ (
        (IsStated (IsAmong (text "standard" ∷ [])) raw.variant
          × IsStated (IsAmong speeds) raw.speed)
        × IsStated (λ s. IsAmong endings s → ⊥) raw.status))
      × (((check_game_eligibility (chessdotcom_metadata (some other))).eligible ≡ true) ↔ (
          (IsStated (IsAmong (text "chess" ∷ text "standard" ∷ [])) other.rules
            × IsStated (IsAmong speeds) other.time_class)
          × IsStated HasClock other.time_control))
eligible_games raw other =
    let lichess =
      both
        (states_one_of supported_variants raw.variant && states_one_of supported_speeds raw.speed)
        (states_none_of unverifiable_end_statuses raw.status)
        (both (states_one_of supported_variants raw.variant)
          (states_one_of supported_speeds raw.speed) (states_one_iff supported_variants raw.variant)
          (states_one_iff supported_speeds raw.speed))
        (states_none_iff unverifiable_end_statuses raw.status) in
    let chessdotcom =
      both
        (states_one_of supported_variants (variant_of other.rules)
          && states_one_of supported_speeds other.time_class)
        (not (
          lacks_clock
            (elim other.time_control as (λ x. Clock) [ none ↦ unknown | some s ↦ clock_of s ])))
        (both (states_one_of supported_variants (variant_of other.rules))
          (states_one_of supported_speeds other.time_class) (variant_iff other.rules)
          (states_one_iff supported_speeds other.time_class))
        (optional_clock_iff other.time_control) in
    (
      (λ h. lichess.0 (sym (lichess_lem raw) ∙ h), λ h. lichess_lem raw ∙ lichess.1 h),
      (
        λ h. chessdotcom.0 (sym (chessdotcom_lem other) ∙ h),
        λ h. chessdotcom_lem other ∙ chessdotcom.1 h,
      ),
    )
