-- ===== src/Match/Identity.antt =====
-- Who played: apps/backend/src/services/player-identity.ts. SHA-256 is a parameter.
use smile4money.Common.{
  ◌≡◌, refl, ◌↔◌, ◌⊎◌, true, false, ◌&&◌, ◌||◌, not, Option, none, some, List, [], ◌∷◌,
  if◌then◌else◌, or_else, arith,
}
use smile4money.Common.Keys.{◌===◌}
use smile4money.Common.Text.{
  Text, text_eq, text_beq_iff, is_empty, is_truthy, trim, to_lower_case, to_upper_case, join,
  IsFree, split_unique,
}
use smile4money.Match.{MatchRecord, GameResult}

pub record PlayerIdentityMap : Type 0 where
  pub player1_address : Text
  pub player1_username : Text
  pub player2_address : Text
  pub player2_username : Text
  pub platform : Text

unfoldable pub normalize_username : Text → Text
normalize_username name = to_lower_case (trim name)

unfoldable pub normalize_address : Text → Text
normalize_address address = to_upper_case (trim address)

pub data VerificationError : Type 0 where
  empty_username player_mismatch missing_usernames hash_mismatch : VerificationError

-- `none` is `{ valid: true }`, and `some e` the rejection with its reason.
unfoldable pub verify_player_identities :
    MatchRecord → GameResult → PlayerIdentityMap → Option VerificationError
verify_player_identities record_ game map_ =
    let white = normalize_username game.white_player in
    let black = normalize_username game.black_player in
    let player1 = normalize_username map_.player1_username in
    let player2 = normalize_username map_.player2_username in
    if is_empty white || is_empty black || is_empty player1 || is_empty player2
    then some empty_username
    else if (white === player1) && (black === player2)
    then none
    else if (white === player2) && (black === player1)
    then none
    else some player_mismatch

module _ (sha256 : Text → Text) where
  unfoldable pub compute_identity_hash : Text → Text → Text → Text → Text
  compute_identity_hash player1_username player1_address player2_username player2_address = sha256 (
      join b':' (
        normalize_username player1_username
        ∷ normalize_address player1_address
        ∷ normalize_username player2_username
        ∷ normalize_address player2_address
        ∷ []))

  unfoldable pub verify_identity_hash : MatchRecord → Option VerificationError
  verify_identity_hash m =
      if not (is_truthy m.identity_hash)
      then none
      else if not (is_truthy m.player1_username) || not (is_truthy m.player2_username)
      then some missing_usernames
      else if compute_identity_hash (or_else m.player1_username []) m.player1
            (or_else m.player2_username []) m.player2
          === or_else m.identity_hash []
      then none
      else some hash_mismatch

-- The players reported are the two registered ones, in either order, and all four names say
-- something.
pub record SamePlayers (game : GameResult) (map_ : PlayerIdentityMap) : Type 0 where
  pub white_named : is_empty (normalize_username game.white_player) ≡ false
  pub black_named : is_empty (normalize_username game.black_player) ≡ false
  pub in_some_order :
      ((normalize_username game.white_player ≡ normalize_username map_.player1_username)
        × (normalize_username game.black_player ≡ normalize_username map_.player2_username))
      ⊎ ((normalize_username game.white_player ≡ normalize_username map_.player2_username)
          × (normalize_username game.black_player ≡ normalize_username map_.player1_username))

-- The identity check accepts a game exactly when its two players, compared without case and outer
-- spaces, are the two registered ones in either order of colours, and neither name is empty.
pub verify_player_identities_iff :
    (m : MatchRecord) (game : GameResult) (map_ : PlayerIdentityMap)
    → (verify_player_identities m game map_ ≡ none) ↔ SamePlayers game map_
unfolding verify_player_identities
verify_player_identities_iff m game map_ = (
  λ h. ground (
    arith,
    text_beq_iff (normalize_username game.white_player) (normalize_username map_.player1_username),
    text_beq_iff (normalize_username game.black_player) (normalize_username map_.player2_username),
    text_beq_iff (normalize_username game.white_player) (normalize_username map_.player2_username),
    text_beq_iff (normalize_username game.black_player) (normalize_username map_.player1_username),
  ),
  λ h. ground (
    arith,
    text_beq_iff (normalize_username game.white_player) (normalize_username map_.player1_username),
    text_beq_iff (normalize_username game.black_player) (normalize_username map_.player2_username),
    text_beq_iff (normalize_username game.white_player) (normalize_username map_.player2_username),
    text_beq_iff (normalize_username game.black_player) (normalize_username map_.player1_username),
  ),
)

-- The four fields that a hash binds, as they are hashed.
abbrev pub bound_fields : Text → Text → Text → Text → List Text
bound_fields u1 a1 u2 a2 =
    normalize_username u1 ∷ normalize_address a1 ∷ normalize_username u2 ∷ normalize_address a2 ∷ []

-- No separator stands in the first three fields.
abbrev pub IsSplittable : Text → Text → Text → Type 0
IsSplittable u1 a1 u2 =
    IsFree b':' (normalize_username u1)
    × IsFree b':' (normalize_address a1)
    × IsFree b':' (normalize_username u2)

join_injective :
    (s1 s2 s3 s4 t1 t2 t3 t4 : Text)
    → IsFree b':' s1 × IsFree b':' s2 × IsFree b':' s3
    → IsFree b':' t1 × IsFree b':' t2 × IsFree b':' t3
    → join b':' (s1 ∷ s2 ∷ s3 ∷ s4 ∷ []) ≡ join b':' (t1 ∷ t2 ∷ t3 ∷ t4 ∷ [])
    → s1 ∷ s2 ∷ s3 ∷ s4 ∷ [] ≡ t1 ∷ t2 ∷ t3 ∷ t4 ∷ []
unfolding join
join_injective s1 s2 s3 s4 t1 t2 t3 t4 f g h =
    let (e1, r1) = split_unique b':' s1 t1 _ _ f.0 g.0 h in
    let (e2, r2) = split_unique b':' s2 t2 _ _ f.1 g.1 r1 in
    let (e3, e4) = split_unique b':' s3 t3 _ _ f.2 g.2 r2 in cc

truthy_of_nonempty : (t : Text) → is_empty t ≡ false → is_truthy (some t) ≡ true
truthy_of_nonempty [] h = cc
truthy_of_nonempty (c ∷ t) h = refl

module _ (sha256 : Text → Text) (injective : (s t : Text) → sha256 s ≡ sha256 t → s ≡ t)
    (says_something : (s : Text) → is_empty (sha256 s) ≡ false) where
  same_hash :
      (m : MatchRecord) (t : Text)
      → m.identity_hash ≡ some (sha256 t)
      → verify_identity_hash sha256 m ≡ none
      → compute_identity_hash sha256
          (or_else m.player1_username [])
          m.player1
          (or_else m.player2_username [])
          m.player2
        ≡ sha256 t
  unfolding verify_identity_hash
  same_hash m t e h = ground (
    arith,
    truthy_of_nonempty (sha256 t) (says_something t),
    text_beq_iff
        (compute_identity_hash sha256 (or_else m.player1_username []) m.player1
          (or_else m.player2_username []) m.player2)
        (sha256 t),
  )

  -- With a hash that has no collisions and is never empty: if a record carries the hash of some
  -- fields free of the separator, its own fields are free of it too, and the hash check accepts
  -- the record, then the record's fields are those that were hashed, up to case and outer spaces.
  -- So a later change of a name or an address is found out.
  pub verify_identity_hash_binds :
      (m : MatchRecord) (u1 a1 u2 a2 : Text)
      → m.identity_hash ≡ some (compute_identity_hash sha256 u1 a1 u2 a2)
      → IsSplittable u1 a1 u2
      → IsSplittable (or_else m.player1_username []) m.player1 (or_else m.player2_username [])
      → verify_identity_hash sha256 m ≡ none
      → bound_fields
          (or_else m.player1_username [])
          m.player1
          (or_else m.player2_username [])
          m.player2
        ≡ bound_fields u1 a1 u2 a2
  unfolding compute_identity_hash
  verify_identity_hash_binds m u1 a1 u2 a2 e f g h =
      join_injective _ _ _ _ _ _ _ _ g f (injective _ _ (same_hash m _ e h))
