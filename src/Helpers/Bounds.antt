-- ===== src/Helpers/Bounds.antt =====
-- Bounds of helpers/helpers.go: the selected peer and the random text.
use mathlib.Core.Path.{subst}
use fabric_simulator.Prelude.{
  sym, Option, none, get_elem?, ℕ, zero, suc, ◌%◌, ◌<◌, ◌≡◌, refl, some, List, [], ◌∷◌, ◌++◌,
  length, arith, ap, Bool, true, leb, ◌&&◌, ◌||◌,
}
use fabric_simulator.Platform.{Platform, Bytes}
use fabric_simulator.Helpers.{charset, of_big_endian, peer_by_hash, char_at, random_string}

abbrev pub All {ℓ κ} : {A : Type ℓ} → (A → Type κ) → List A → Type κ
All P [] = Unit
All P (x ∷ xs) = P x × All P xs

pub All-append {ℓ κ} :
    {A : Type ℓ} (Q : A → Type κ) (xs ys : List A) → All Q xs → All Q ys → All Q (xs ++ ys)
All-append Q [] ys h g = g
All-append Q (x ∷ xs) ys h g = (h.0, All-append Q xs ys h.1 g)

-- With at least one peer, a hash selects a peer, and its number is below the number of peers.
pub peer_by_hash-lt :
    (hash : Bytes) (peers : ℕ)
    → 0 < peers
    → (p : ℕ) × (peer_by_hash hash peers ≡ some p) × (p < peers)
unfolding peer_by_hash
peer_by_hash-lt hash peers h = (of_big_endian hash % peers, ground arith, omega arith)

abbrev pub is_alphanumeric : ℕ → Bool
is_alphanumeric ch =
    leb b'a' ch && leb ch b'z' || leb b'A' ch && leb ch b'Z' || leb b'0' ch && leb ch b'9'

abbrev pub IsAlphanumeric : ℕ → Type 0
IsAlphanumeric ch = is_alphanumeric ch ≡ true

alphanumeric_only : Bytes → Bool
alphanumeric_only [] = true
alphanumeric_only (ch ∷ chs) = is_alphanumeric ch && alphanumeric_only chs

charset-alphanumeric_only : alphanumeric_only charset ≡ true
unfolding alphanumeric_only
charset-alphanumeric_only = refl

-- What stands at a place of such a text.
alphanumeric_only-at :
    (chs : Bytes) (k : ℕ)
    → alphanumeric_only chs ≡ true
    → k < length chs
    → (ch : ℕ) × (get_elem? chs k ≡ some ch) × IsAlphanumeric ch
unfolding alphanumeric_only
alphanumeric_only-at [] k only inside = absurd (omega arith)
alphanumeric_only-at (ch ∷ chs) zero only inside = (ch, refl, ground arith)
alphanumeric_only-at (ch ∷ chs) (suc k) only inside =
    alphanumeric_only-at chs k (ground arith) (omega arith)

char_at-IsAlphanumeric : (r : ℕ) → IsAlphanumeric (char_at (r % 62))
unfolding char_at
char_at-IsAlphanumeric r =
    let (ch, at, fine) =
      alphanumeric_only-at charset (r % 62) charset-alphanumeric_only (omega arith) in
    subst IsAlphanumeric (sym (ap letter at)) fine
  where
    letter : Option ℕ → ℕ
    letter o = elim o [ none ↦ 0 | some c ↦ c ]

-- A random string has the length that was asked for, and holds only letters and digits.
pub random_string_lem :
    (c : Platform) (n : ℕ) (prg : c.Rand)
    → (length (random_string c n prg).0 ≡ n) × All IsAlphanumeric (random_string c n prg).0
unfolding random_string
random_string_lem c zero prg = (refl, tt)
random_string_lem c (suc n) prg =
    let (l, all) = random_string_lem c n (c.get_byte prg).1 in
    (ap suc l, (char_at-IsAlphanumeric (c.get_byte prg).0, all))
