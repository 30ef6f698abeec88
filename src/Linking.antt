-- ===== src/Linking.antt =====
-- Linking a player's name to a wallet: the challenges and links of
-- apps/backend/src/services/player-identity.ts. The check of a signature, that of the message's digest, is a parameter,
-- which says no where the source catches an error. A confirmation waits for the check of the profile, so it is two
-- steps, between which others may run.
pub mod Proofs
pub mod Capacity
mod Examples
use smile4money.Common.{
  ℕ, zero, suc, ◌+◌, ◌*◌, Bool, true, false, ◌&&◌, ◌||◌, not, Option, none, some, List, [], ◌∷◌,
  ◌++◌, length, leb, ◌==◌, if◌then◌else◌, or_else, or_try,
}
use smile4money.Common.Keys.{◌===◌}
use smile4money.Common.OrderedMap.{OrderedMap, get, set, delete}
use smile4money.Common.Text.{
  Text, text, text_eq, is_empty, all_chars, is_digit, trim, to_lower_case, contains,
}

abbrev pub link_nonce_ttl_ms : ℕ
link_nonce_ttl_ms = 5 * 60 * 1000

abbrev pub max_pending_links : ℕ
max_pending_links = 4096

pub record PendingLink : Type 0 where
  pub address : Text
  pub platform : Text
  pub username : Text
  pub expires_at : ℕ

pub record VerifiedLink : Type 0 where
  pub address : Text
  pub platform : Text
  pub username : Text
  pub linked_at : ℕ

pub record Links : Type 0 where
  pub pending_links : OrderedMap Text PendingLink
  pub verified_links : OrderedMap Text VerifiedLink

abbrev pub no_links : Links
no_links = record { pending_links = []; verified_links = [] }

pub record IdentityLinkChallenge : Type 0 where
  pub nonce : Text
  pub message : Text
  pub profile_proof : Text
  pub expires_at : ℕ

-- /[A-Z2-7]/
abbrev pub is_base32 : ℕ → Bool
is_base32 c = (leb b'A' c && leb c b'Z') || (leb b'2' c && leb c b'7')

-- /^G[A-Z2-7]{55}$/
unfoldable pub is_address : Text → Bool
is_address [] = false
is_address (c ∷ s) = (c == b'G') && (all_chars is_base32 s && (length s == 55))

-- /[0-9a-f]/i
abbrev pub is_hex : ℕ → Bool
is_hex c = is_digit c || ((leb b'a' c && leb c b'f') || (leb b'A' c && leb c b'F'))

unfoldable pub is_signature : Text → Bool
is_signature s = all_chars is_hex s && (length s == 128)

unfoldable pub link_message : Text → PendingLink → Text
link_message nonce p =
    text "smile4money identity link"
    ++ ((10 ∷ text "wallet:")
        ++ (p.address
            ++ ((10 ∷ text "platform:")
                ++ (p.platform
                    ++ ((10 ∷ text "username:")
                        ++ (p.username ++ ((10 ∷ text "nonce:") ++ nonce)))))))

unfoldable pub profile_proof : Text → Text
profile_proof nonce = text "smile4money:" ++ nonce

unfoldable pub link_key : Text → Text → Text
link_key platform username = platform ++ (b':' ∷ to_lower_case username)

unfoldable pub without_expired : ℕ → OrderedMap Text PendingLink → OrderedMap Text PendingLink
without_expired now [] = []
without_expired now ((nonce, p) ∷ m) =
    if leb p.expires_at now then without_expired now m else (nonce, p) ∷ without_expired now m

-- The first key is the oldest; an empty one would stay.
unfoldable pub evict_oldest : OrderedMap Text PendingLink → OrderedMap Text PendingLink
evict_oldest [] = []
evict_oldest ((nonce, p) ∷ m) =
    if is_empty nonce then (nonce, p) ∷ m else delete nonce ((nonce, p) ∷ m)

unfoldable pub make_room : OrderedMap Text PendingLink → OrderedMap Text PendingLink
unfolding evict_oldest
make_room m = if leb max_pending_links (length m) then evict_oldest m else m

abbrev pub is_platform : Text → Bool
is_platform p = p === text "lichess" || p === text "chessdotcom"

-- `none`: the inputs are refused. The nonce is 32 random bytes in hexadecimal digits.
unfoldable pub create_identity_link_challenge :
    Text → Text → Text → Text → ℕ → Links → Option (Links × IdentityLinkChallenge)
unfolding is_address trim without_expired make_room link_message profile_proof
create_identity_link_challenge nonce address platform username now s =
    let p : PendingLink = record {
      address = address;
      platform = platform;
      username = trim username;
      expires_at = now + link_nonce_ttl_ms;
    } in
    if not (is_address address) || (not (is_platform platform) || is_empty (trim username))
    then none
    else some (
      record s { pending_links = set nonce p (make_room (without_expired now s.pending_links)) },
      record {
        nonce = nonce;
        message = link_message nonce p;
        profile_proof = profile_proof nonce;
        expires_at = p.expires_at;
      },
    )

-- What a platform answers for an account.
pub record Account : Type 0 where
  pub username : Option Text
  pub id : Option Text
  pub bio : Option Text
  pub location : Option Text

-- What `verifyChessProfile` makes of the answer.
unfoldable pub accepts_profile : Text → Text → Text → Account → Bool
accepts_profile platform username proof account =
    let returned = or_else (or_try account.username account.id) [] in
    let profile = if platform === text "lichess" then account.bio else account.location in
    not (is_empty returned)
    && ((to_lower_case returned === to_lower_case username)
        && elim profile [ none ↦ false | some s ↦ contains proof s ])

-- Why a pending challenge is not accepted, but for its signature.
unfoldable pub is_unfit : PendingLink → Text → Text → ℕ → Bool
unfolding is_signature
is_unfit p address signature now =
    leb p.expires_at now || (not (p.address === address) || not (is_signature signature))

module _ (verify : Text → Text → Text → Bool) where
  -- Up to the check of the profile: `none` if the call returns false.
  unfoldable pub begin_confirm : Text → Text → Text → ℕ → Links → Links × Option PendingLink
  unfolding is_unfit link_message
  begin_confirm nonce address signature now s = elim (get nonce s.pending_links) [
    | none ↦ (s, none)
    | some p ↦
        if is_unfit p address signature now
        then (if leb p.expires_at now
            then (record s { pending_links = delete nonce s.pending_links }, none)
            else (s, none))
        else if verify address (link_message nonce p) signature
        then (s, some p)
        else (s, none)
  ]

-- After the check of the profile.
unfoldable pub finish_confirm : Text → PendingLink → Text → Bool → ℕ → Links → Links × Bool
unfolding link_key
finish_confirm nonce p address profile_verified now s =
    if profile_verified
    then (
      record {
        pending_links = delete nonce s.pending_links;
        verified_links =
            set (link_key p.platform p.username)
              (record {
                address = address;
                platform = p.platform;
                username = p.username;
                linked_at = now;
              })
              s.verified_links;
      },
      true,
    )
    else (s, false)

unfoldable pub get_linked_wallet : Text → Text → Links → Option Text
unfolding link_key trim
get_linked_wallet platform username s =
    elim (get (link_key platform (trim username)) s.verified_links) [
      | none ↦ none
      | some l ↦ some l.address
    ]
