-- ===== src/Linking/Examples.antt =====
-- A player proves a name with a signature that is taken to be valid if it starts with the letter a.
use smile4money.Common.{◌≡◌, Bool, true, false, List, [], ◌∷◌, ◌==◌, refl, replicate}
use smile4money.Common.OrderedMap.{get, set, delete}
use smile4money.Common.Text.{Text, text, text_eq, trim, to_lower_case}
use smile4money.Linking.{
  VerifiedLink, link_key, get_linked_wallet, create_identity_link_challenge, begin_confirm,
  finish_confirm, is_unfit,
}
use smile4money.Linking.Proofs.{
  Event, challenges, begins, finishes, after_all, step, start, IsProven, linked_wallet-IsProven,
}

abbrev verify : Text → Text → Text → Bool
verify address message [] = false
verify address message (c ∷ s) = c == b'a'

abbrev address : Text
address = b'G' ∷ replicate 55 b'A'

abbrev signature : Text
signature = replicate 128 b'a'

abbrev calls : List Event
calls =
    challenges (text "n1") address (text "lichess") (text " Alice ") 1000
    ∷ begins (text "n1") address signature 2000
    ∷ begins (text "n1") address (text "ff") 2500
    ∷ finishes 0 true 3000
    ∷ []

linked_wallet-IsProven_example :
    (l : VerifiedLink) × (l.address ≡ address)
    × IsProven verify
        (link_key (text "lichess") (trim (text "aLICE")))
        l
        (after_all verify calls start).checks
linked_wallet-IsProven_example =
    linked_wallet-IsProven verify calls (text "lichess") (text "aLICE") address (
      unfold after_all step create_identity_link_challenge begin_confirm finish_confirm is_unfit
        get_linked_wallet get set delete to_lower_case in
      refl)
