-- ===== src/Helpers.antt =====
-- helpers/helpers.go: random bytes and strings, the hash, and the peer that a hash selects.
pub mod Bounds
use Prim.Native.Char.{code}
use Prim.Native.String.{String}
use mathlib.Core.List.{foldl}
use fabric_simulator.Prelude.{
  ℕ, zero, suc, ◌+◌, ◌*◌, ◌%◌, Option, none, some, List, [], ◌∷◌, length, get_elem?, ◌==◌,
  if◌then◌else◌,
}
use fabric_simulator.Platform.{Platform, Bytes}

-- The code points of a text: its bytes, since every text here is ASCII.
abbrev pub codes : String → Bytes
codes String.[] = []
codes (String.◌∷◌ c s) = code c ∷ codes s

-- big.Int.SetBytes and BigEndian.Uint64: the most significant byte first.
unfoldable pub of_big_endian : Bytes → ℕ
of_big_endian = foldl (λ n b. n * 256 + b) 0

-- `none` is the division by zero of big.Int.Mod.
unfoldable pub peer_by_hash : Bytes → ℕ → Option ℕ
unfolding of_big_endian
peer_by_hash hash peers = if peers == 0 then none else some (of_big_endian hash % peers)

abbrev pub charset : Bytes
charset = codes "abcdefghijklmnopqrstuvwxyzABCDEFGHIJKLMNOPQRSTUVWXYZ0123456789"

-- `charset[i]`; the index is a remainder by the length, so 0 is never the answer.
unfoldable pub char_at : ℕ → ℕ
char_at i = elim (get_elem? charset i) [ none ↦ 0 | some c ↦ c ]

-- `for i := 0; i < n; i++ { raw[i] = f(i) }`, from the index `i` on.
unfoldable pub fill : (ℕ → ℕ) → ℕ → ℕ → Bytes
fill f i zero = []
fill f i (suc n) = f i ∷ fill f (suc i) n

module _ (c : Platform) where
  open c use {Rand, get_byte, seed_rand, sha3_new, sha3_process, sha3_hash, go_int}

  unfoldable pub random_bytes : ℕ → Rand → Bytes × Rand
  random_bytes zero prg = ([], prg)
  random_bytes (suc n) prg =
      let (b, prg') = get_byte prg in let (bs, prg'') = random_bytes n prg' in (b ∷ bs, prg'')

  unfoldable pub sha3 : Bytes → Bytes
  sha3 raw = sha3_hash (foldl sha3_process sha3_new raw)

  unfoldable pub random_string : ℕ → Rand → Bytes × Rand
  unfolding char_at
  random_string zero prg = ([], prg)
  random_string (suc n) prg =
      let (r, prg') = get_byte prg in
      let (s, prg'') = random_string n prg' in (char_at (r % length charset) ∷ s, prg'')

  unfoldable pub random_ulong : Rand → ℕ × Rand
  unfolding random_bytes of_big_endian
  random_ulong prg = let (raw, prg') = random_bytes 8 prg in (of_big_endian raw, prg')

  -- The argument is what time.Now().UnixNano() returned.
  unfoldable pub new_rand : ℕ → Rand
  unfolding fill
  new_rand nanoseconds = seed_rand (fill (λ i. go_int nanoseconds i % 256) 0 32)

  unfoldable pub new_rand_seed : Bytes → Rand
  new_rand_seed seed = seed_rand seed
