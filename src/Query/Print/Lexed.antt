-- ===== src/Query/Print/Lexed.antt =====
-- The tokens of a printed query (`to_sexpr` of `crates/query/src/parser.rs`).
use mimisbrunnr.Base.{
  ℕ, suc, ◌+◌, ◌<◌, ◌≤◌, ◌≡◌, ◌≢◌, refl, ap, sym, ◌∙◌, inl, inr, true, false, not, ◌&&◌, ◌||◌, List,
  [], ◌∷◌, ◌++◌, append_assoc, append-nil, length, length-append, ltb, ◌==◌, Bool-cases, arith,
}
use mimisbrunnr.Base.Int.{ℤ, pos, negsuc}
use mimisbrunnr.Types.Query.{CmpOp, eq_op}
use mimisbrunnr.Query.Text.{decimal, int_text, strip_prefix, digit}
use mimisbrunnr.Query.Text.Laws.{all, all-digits, digits-ne-nil}
use mimisbrunnr.Query.Token.{Token, str, token, is_word_byte, as_char, quoted, round}
use mimisbrunnr.Query.Token.Lexes.{Lexes, Lexes-token, IsName}
use mimisbrunnr.Query.Print.{escaped, cmp_to_str}

-- Each byte taken for a code point.
unfoldable pub reread : List ℕ → List ℕ
reread [] = []
reread (b ∷ bs) = as_char b ++ reread bs

quoted_quote :
    (i : ℕ) (buf rest : List ℕ) → quoted i buf (b'"' ∷ rest) ≡ token (str buf) (i + 1) rest
unfolding quoted
quoted_quote i buf [] = refl
quoted_quote i buf (r ∷ rest) = refl

quoted_plain :
    (i c : ℕ) (buf bs : List ℕ)
    → bs ≢ []
    → (c == b'"' || c == b'\\') ≡ false
    → quoted i buf (c ∷ bs) ≡ quoted (i + 1) (buf ++ as_char c) bs
unfolding quoted
quoted_plain i c buf [] h k = absurd (h refl)
quoted_plain i c buf (b ∷ bs) h k = ground arith

quoted_escape :
    (i c : ℕ) (buf bs : List ℕ)
    → quoted i buf (b'\\' ∷ c ∷ bs) ≡ quoted (i + 2) (buf ++ as_char c) bs
unfolding quoted
quoted_escape i c buf bs = refl

append_cons-ne-nil : (xs : List ℕ) (y : ℕ) (ys : List ℕ) → xs ++ (y ∷ ys) ≢ []
append_cons-ne-nil [] y ys e = cc
append_cons-ne-nil (x ∷ xs) y ys e = cc

-- A printed text is read back with each byte taken for a code point.
quoted-escaped :
    (i : ℕ) (buf s rest : List ℕ)
    → (j : ℕ) × (quoted i buf (escaped s ++ (b'"' ∷ rest)) ≡ token (str (buf ++ reread s)) j rest)
unfolding escaped reread
quoted-escaped i buf [] rest =
    (i + 1, quoted_quote i buf rest ∙ ap (λ b. token (str b) (i + 1) rest) (sym (append-nil buf)))
quoted-escaped i buf (c ∷ cs) rest = elim (Bool-cases (c == b'"' || c == b'\\')) [
  | inl special ↦
      let (j, e) = quoted-escaped (i + 2) (buf ++ as_char c) cs rest in
      (
        j,
        rw special (
            quoted_escape i c buf _
            ∙ e
            ∙ ap (λ b. token (str b) j rest) (append_assoc buf (as_char c) (reread cs))),
      )
  | inr plain ↦
      let (j, e) = quoted-escaped (i + 1) (buf ++ as_char c) cs rest in
      (
        j,
        rw plain (
            quoted_plain i c buf _ (append_cons-ne-nil (escaped cs) b'"' rest) plain
            ∙ e
            ∙ ap (λ b. token (str b) j rest) (append_assoc buf (as_char c) (reread cs))),
      )
]

length-escaped : (s rest : List ℕ) → length rest ≤ length (escaped s ++ (b'"' ∷ rest))
length-escaped s rest = omega (arith, length-append {0} (escaped s) (b'"' ∷ rest))

pub Lexes-str :
    (s rest : List ℕ) (ts : List Token)
    → Lexes rest ts
    → Lexes (b'"' ∷ (escaped s ++ (b'"' ∷ rest))) (str (reread s) ∷ ts)
unfolding round
Lexes-str s rest ts l =
    Lexes-token b'"' (escaped s ++ (b'"' ∷ rest)) rest (str (reread s)) ts
      (λ i. quoted-escaped (i + 1) [] s rest) (length-escaped s rest) l

-- Words with neither of the bytes that begin the other literals.
IsName-of_all :
    (w : List ℕ)
    → w ≢ []
    → all (λ b. is_word_byte b && (not (b == b'@') && not (b == b'o'))) w ≡ true
    → IsName w
unfolding strip_prefix
IsName-of_all [] h k = absurd (h refl)
IsName-of_all (c ∷ w) h k = record {
  plain = all_and_left (c ∷ w) k;
  no_at = ground (arith, k);
  not_obj = ground (arith, k);
}
  where
    all_and_left :
        (w : List ℕ)
        → all (λ b. is_word_byte b && (not (b == b'@') && not (b == b'o'))) w ≡ true
        → all is_word_byte w ≡ true
    all_and_left [] h = refl
    all_and_left (c ∷ w) h = ground (arith, all_and_left w)

number_byte :
    (d : ℕ)
    → d < 10
    → (is_word_byte (digit d) && (not (digit d == b'@') && not (digit d == b'o'))) ≡ true
unfolding digit
number_byte d h = ground arith

pub IsName-int_text : (v : ℤ) → IsName (int_text v)
IsName-int_text (pos n) = IsName-of_all (decimal n) (digits-ne-nil 10 19 n) (
    all-digits (λ b. is_word_byte b && (not (b == b'@') && not (b == b'o'))) 10 20 n (omega arith)
      number_byte)
IsName-int_text (negsuc n) =
    IsName-of_all (b'-' ∷ decimal (suc n)) (λ e. cc)
      (all-digits (λ b. is_word_byte b && (not (b == b'@') && not (b == b'o'))) 10 20 (suc n)
        (omega arith) number_byte)

pub IsName-cmp_to_str : (op : CmpOp) → IsName (cmp_to_str op)
unfolding strip_prefix
IsName-cmp_to_str eq_op = record { plain = refl; no_at = refl; not_obj = refl }
IsName-cmp_to_str _ = record { plain = refl; no_at = refl; not_obj = refl }

pub reread_ascii : (s : List ℕ) → all (λ b. ltb b 128) s ≡ true → reread s ≡ s
unfolding reread as_char
reread_ascii [] h = refl
reread_ascii (b ∷ bs) h = ground (arith, reread_ascii bs)

length-reread : (s : List ℕ) → length s ≤ length (reread s)
unfolding reread as_char
length-reread [] = omega arith
length-reread (b ∷ bs) = ground (arith, length-reread bs)

pub length-reread_high :
    (s : List ℕ) → all (λ b. ltb b 128) s ≡ false → length s < length (reread s)
unfolding reread as_char
length-reread_high [] h = cc
length-reread_high (b ∷ bs) h = ground (arith, length-reread bs, length-reread_high bs)
