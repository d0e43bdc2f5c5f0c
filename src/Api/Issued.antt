-- ===== src/Api/Issued.antt =====
-- capability.py, CapabilityCodec.issue: the parts of an issued token.
use Prim.Native.Char.{Char, code}
use Prim.Native.String.{String, ◌++◌}
use Prim.Native.String.append
use failroom.Prelude.{
  ℕ, ◌+◌, ◌-◌, ◌≤◌, ◌<◌, ◌≡◌, refl, sym, ap, ◌∙◌, Bool, true, false, not, ◌&&◌, List, [], ◌∷◌,
  Option, none, some, leb, ltb, arith, nat_beq, if◌then◌else◌, text_beq→eq, text_beq, text_beq_refl,
  length, Bool-cases, inl, inr,
}
use failroom.Prelude.Text.{codes, all}
use failroom.Api.Sessions.{is_token_char}
use failroom.Api.Capability.{split_dot, three_parts, utf8_length}

abbrev pub is_segment : String → Bool
is_segment s = all is_token_char (codes s)

split_dot-segment : (s : String) → is_segment s ≡ true → split_dot s ≡ (s, none)
unfolding split_dot
split_dot-segment String.[] h = refl
split_dot-segment (String.◌∷◌ c s) h =
    let rest = split_dot-segment s (ground arith) in ground (arith, rest)

split_first :
    (c : Char) (t : String)
    → nat_beq (code c) b'.' ≡ true
    → split_dot (String.◌∷◌ c String.[] ++ t) ≡ ("", some t)
unfolding split_dot
split_first c t h =
    ap split_dot (append.cons c String.[] t ∙ ap (λ x. String.◌∷◌ c x) (append.nil t))
    ∙ ground arith

dot_first : (t : String) → split_dot ("." ++ t) ≡ ("", some t)
dot_first t = split_first _ t refl

split_dot-append : (s t : String) → is_segment s ≡ true → split_dot (s ++ "." ++ t) ≡ (s, some t)
unfolding split_dot
split_dot-append String.[] t h = ap split_dot (append.nil ("." ++ t)) ∙ dot_first t
split_dot-append (String.◌∷◌ c s) t h =
    let rest = split_dot-append s t (ground arith) in
    ap split_dot (append.cons c s ("." ++ t)) ∙ ground (arith, rest)

codes-append : (s t : String) → codes (s ++ t) ≡ failroom.Prelude.◌++◌ (codes s) (codes t)
codes-append String.[] t = ap codes (append.nil t)
codes-append (String.◌∷◌ c s) t =
    ap codes (append.cons c s t) ∙ ap (λ x. code c ∷ x) (codes-append s t)

-- what an ASCII text has
abbrev pub is_ascii : List ℕ → Bool
is_ascii cs = all (λ c. leb c 127) cs

pub utf8_length-ascii : (cs : List ℕ) → is_ascii cs ≡ true → utf8_length cs ≡ length cs
unfolding utf8_length
utf8_length-ascii [] h = refl
utf8_length-ascii (c ∷ cs) h = ground (arith, utf8_length-ascii cs)

ascii-append :
    (xs ys : List ℕ)
    → is_ascii xs ≡ true
    → is_ascii ys ≡ true
    → is_ascii (failroom.Prelude.◌++◌ xs ys) ≡ true
ascii-append [] ys h k = k
ascii-append (x ∷ xs) ys h k = ground (arith, ascii-append xs ys)

segment-ascii : (cs : List ℕ) → all is_token_char cs ≡ true → is_ascii cs ≡ true
segment-ascii [] h = refl
segment-ascii (c ∷ cs) h = ground (arith, segment-ascii cs)

-- a text of segments and dots takes as many bytes as characters
pub token_ascii :
    (a b c : String)
    → is_segment a ≡ true
    → is_segment b ≡ true
    → is_segment c ≡ true
    → is_ascii (codes ((a ++ "." ++ b) ++ "." ++ c)) ≡ true
token_ascii a b c h k l =
    joined (a ++ "." ++ b) c (joined a b (segment-ascii (codes a) h) (segment-ascii (codes b) k))
      (segment-ascii (codes c) l)
  where
    joined :
        (s t : String)
        → is_ascii (codes s) ≡ true
        → is_ascii (codes t) ≡ true
        → is_ascii (codes (s ++ "." ++ t)) ≡ true
    joined s t p q =
        ap is_ascii (codes-append s ("." ++ t))
        ∙ ascii-append (codes s) (codes ("." ++ t)) p
            (ap is_ascii (codes-append "." t) ∙ ascii-append (codes ".") (codes t) refl q)

string_assoc : (s t u : String) → (s ++ t) ++ u ≡ s ++ (t ++ u)
string_assoc String.[] t u = ap (λ x. x ++ u) (append.nil t) ∙ sym (append.nil (t ++ u))
string_assoc (String.◌∷◌ c s) t u =
    ap (λ x. x ++ u) (append.cons c s t)
    ∙ append.cons c (s ++ t) u
    ∙ ap (λ x. String.◌∷◌ c x) (string_assoc s t u)
    ∙ sym (append.cons c s (t ++ u))

pub three_parts-join :
    (a b c : String)
    → is_segment a ≡ true
    → is_segment b ≡ true
    → is_segment c ≡ true
    → text_beq a "" ≡ false
    → text_beq b "" ≡ false
    → text_beq c "" ≡ false
    → three_parts ((a ++ "." ++ b) ++ "." ++ c) ≡ some (a, b, c)
unfolding three_parts
three_parts-join a b c h k l x y z =
    let shape : (a ++ "." ++ b) ++ "." ++ c ≡ a ++ "." ++ (b ++ "." ++ c) =
      string_assoc a ("." ++ b) ("." ++ c) ∙ ap (λ t. a ++ t) (string_assoc "." b ("." ++ c)) in
    ap three_parts shape
    ∙ rw
        (
          split_dot-append a (b ++ "." ++ c) h,
          x,
          split_dot-append b c k,
          y,
          split_dot-segment c l,
          z,
        )
        refl
