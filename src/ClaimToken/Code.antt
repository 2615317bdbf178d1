-- ===== src/ClaimToken/Code.antt =====
-- generateCode of internal/claimtoken/service.go. The random bytes are the argument `bytes`: none where
-- rand.Read fails, else the function from the positions of the buffer to its bytes.
use Prim.Native.Char.{Char, code}
use peerclaw_server.Prelude.{
  if◌then◌else◌, ℕ, zero, suc, ◌%◌, ◌<◌, ◌≡◌, refl, String, Option, none, some, Bool, true, false,
  ◌&&◌, ◌||◌, arith, nat_eq,
}

abbrev pub charset : String
charset = "ABCDEFGHJKMNPQRSTUVWXYZ23456789"

abbrev pub code_prefix : String
code_prefix = "PCW"

abbrev pub length : String → ℕ
length String.[] = 0
length (String.◌∷◌ c s) = suc (length s)

-- The character at an index; none where Go panics.
abbrev pub at : String → ℕ → Option Char
at String.[] i = none
at (String.◌∷◌ c s) zero = some c
at (String.◌∷◌ c s) (suc i) = at s i

-- The writes of a strings.Builder.
abbrev pub write : String → String → String
write String.[] t = t
write (String.◌∷◌ c s) t = String.◌∷◌ c (write s t)

abbrev pub cons? : Option Char → Option String → Option String
cons? (some c) (some s) = some (String.◌∷◌ c s)
cons? (some c) none = none
cons? none s = none

-- `chars[i:i+n]`: each byte picks a character of the charset.
unfoldable pub chars : (ℕ → ℕ) → ℕ → ℕ → Option String
chars b i zero = some ""
chars b i (suc n) = cons? (at charset (b i % length charset)) (chars b (suc i) n)

abbrev pub assemble : Option String → Option String → Option String
assemble (some x) (some y) = some (write code_prefix (write "-" (write x (write "-" y))))
assemble (some x) none = none
assemble none y = none

unfoldable pub generate_code : Option (ℕ → ℕ) → Option String
unfolding chars
generate_code none = none
generate_code (some b) = assemble (chars b 0 4) (chars b 4 4)

-- Whether a character is one of a text.
abbrev pub member : Char → String → Bool
member c String.[] = false
member c (String.◌∷◌ d s) = nat_eq (code c) (code d) || member c s

-- Whether a text has the form of a pattern, in which `*` stands for a character of the charset.
unfoldable pub matches : String → String → Bool
matches String.[] String.[] = true
matches String.[] (String.◌∷◌ c s) = false
matches (String.◌∷◌ p ps) String.[] = false
matches (String.◌∷◌ p ps) (String.◌∷◌ c s) =
    (if nat_eq (code p) b'*' then member c charset else nat_eq (code p) (code c)) && matches ps s

at-member :
    (s : String) (i : ℕ) → i < length s → (c : Char) × (at s i ≡ some c) × (member c s ≡ true)
at-member String.[] i h = ground arith
at-member (String.◌∷◌ d s) zero h = (d, refl, ground arith)
at-member (String.◌∷◌ d s) (suc i) h =
    let (c, e, m) = at-member s i (omega arith) in (c, e, ground arith)

abbrev four : Char → Char → Char → Char → String → String
four a b c d s = String.◌∷◌ a (String.◌∷◌ b (String.◌∷◌ c (String.◌∷◌ d s)))

abbrev code_of : Char → Char → Char → Char → Char → Char → Char → Char → String
code_of a b c d e f g h = write "PCW-" (four a b c d (write "-" (four e f g h "")))

-- The character that a byte picks.
picked :
    (n : ℕ) → (c : Char) × (at charset (n % length charset) ≡ some c) × (member c charset ≡ true)
picked n = at-member charset (n % length charset) (omega arith)

-- Given random bytes, generateCode returns a code, never indexes past the charset, and the code has
-- the form PCW-XXXX-XXXX with characters of the charset.
pub generate_code-matches :
    (b : ℕ → ℕ)
    → (c : String) × (generate_code (some b) ≡ some c) × (matches "PCW-****-****" c ≡ true)
unfolding generate_code matches
generate_code-matches b =
    let (c0, e0, m0) = picked (b 0) in
    let (c1, e1, m1) = picked (b 1) in
    let (c2, e2, m2) = picked (b 2) in
    let (c3, e3, m3) = picked (b 3) in
    let (c4, e4, m4) = picked (b 4) in
    let (c5, e5, m5) = picked (b 5) in
    let (c6, e6, m6) = picked (b 6) in
    let (c7, e7, m7) = picked (b 7) in
    (
      code_of c0 c1 c2 c3 c4 c5 c6 c7,
      simp (e0, e1, e2, e3, e4, e5, e6, e7) refl,
      simp (m0, m1, m2, m3, m4, m5, m6, m7) refl,
    )
