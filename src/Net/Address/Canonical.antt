-- ===== src/Net/Address/Canonical.antt =====
-- What `parseIpv4` of packages/core/src/net/address.ts accepts: the canonical dotted quads alone.
use verif_ai.Common.{
  ℕ, ◌+◌, ◌*◌, ◌/◌, ◌%◌, ◌^◌, ◌<◌, ◌≡◌, ◌↔◌, inl, inr, sym, ap, ◌∙◌, true, some, List, [], ◌∷◌,
  ◌++◌, Text, Lacks, split, join, split-append, split_of_Lacks, join-split, decimal_from, length,
  ltb, ◌==◌, if◌then◌else◌, arith, Bool-cases,
}
use verif_ai.Net.Address.Parse.{is_octet, octets_from, parse_ipv4}

-- The decimal digits of an octet, with no leading zero.
abbrev pub octet_text : ℕ → Text
octet_text n =
    if ltb n 10
    then (b'0' + n) ∷ []
    else if ltb n 100
    then (b'0' + n / 10) ∷ (b'0' + n % 10) ∷ []
    else (b'0' + n / 100) ∷ (b'0' + n / 10 % 10) ∷ (b'0' + n % 10) ∷ []

-- The canonical spelling of a 32-bit address.
unfoldable pub dotted : ℕ → Text
dotted v =
    octet_text (v / 2 ^ 24)
    ++ b'.'
      ∷ (octet_text (v / 2 ^ 16 % 256)
          ++ b'.' ∷ (octet_text (v / 2 ^ 8 % 256) ++ b'.' ∷ octet_text (v % 256)))

octet_text_octet : (n : ℕ) → n < 256 → is_octet (octet_text n) ≡ true
unfolding is_octet
octet_text_octet n h = ground arith

octet_text_decimal : (n : ℕ) → n < 256 → decimal_from 0 (octet_text n) ≡ n
octet_text_decimal n h = ground arith

octet_text-Lacks : (n : ℕ) → n < 256 → Lacks b'.' (octet_text n)
octet_text-Lacks n h = ground arith

of_is_octet :
    (p : Text) → is_octet p ≡ true → (decimal_from 0 p < 256) × (octet_text (decimal_from 0 p) ≡ p)
unfolding is_octet
of_is_octet [] h = cc
of_is_octet (d ∷ []) h = ground arith
of_is_octet (a ∷ d ∷ []) h = ground arith
of_is_octet (a ∷ b ∷ d ∷ []) h = ground arith
of_is_octet (a ∷ b ∷ c ∷ d ∷ p) h = cc

pub split-dotted :
    (v : ℕ)
    → v < 2 ^ 32
    → split b'.' (dotted v)
      ≡ octet_text (v / 2 ^ 24)
        ∷ octet_text (v / 2 ^ 16 % 256)
        ∷ octet_text (v / 2 ^ 8 % 256)
        ∷ octet_text (v % 256)
        ∷ []
unfolding dotted
split-dotted v h =
    split-append b'.' (octet_text (v / 2 ^ 24)) _ (octet_text-Lacks (v / 2 ^ 24) (omega arith))
    ∙ ap (λ r. octet_text (v / 2 ^ 24) ∷ r)
        (split-append b'.' (octet_text (v / 2 ^ 16 % 256)) _
            (octet_text-Lacks (v / 2 ^ 16 % 256) (omega arith))
          ∙ ap (λ r. octet_text (v / 2 ^ 16 % 256) ∷ r)
              (split-append b'.' (octet_text (v / 2 ^ 8 % 256)) _
                  (octet_text-Lacks (v / 2 ^ 8 % 256) (omega arith))
                ∙ ap (λ r. octet_text (v / 2 ^ 8 % 256) ∷ r)
                    (split_of_Lacks b'.' (octet_text (v % 256))
                      (octet_text-Lacks (v % 256) (omega arith)))))

octets_from-octet_text :
    (n value : ℕ) (rest : List Text)
    → n < 256
    → octets_from value (octet_text n ∷ rest) ≡ octets_from (value * 256 + n) rest
unfolding octets_from
octets_from-octet_text n value rest h =
    rw (octet_text_octet n h)
      (ap (λ d. octets_from (value * 256 + d) rest) (octet_text_decimal n h))

octets_from-quad :
    (i j k l : ℕ)
    → i < 256
    → j < 256
    → k < 256
    → l < 256
    → octets_from 0 (octet_text i ∷ octet_text j ∷ octet_text k ∷ octet_text l ∷ [])
      ≡ some (((i * 256 + j) * 256 + k) * 256 + l)
octets_from-quad i j k l hi hj hk hl =
    octets_from-octet_text i 0 (octet_text j ∷ octet_text k ∷ octet_text l ∷ []) hi
    ∙ octets_from-octet_text j (0 * 256 + i) (octet_text k ∷ octet_text l ∷ []) hj
    ∙ octets_from-octet_text k ((0 * 256 + i) * 256 + j) (octet_text l ∷ []) hk
    ∙ octets_from-octet_text l (((0 * 256 + i) * 256 + j) * 256 + k) [] hl
    ∙ (unfold octets_from in ground arith)

pub parse_ipv4-dotted : (v : ℕ) → v < 2 ^ 32 → parse_ipv4 (dotted v) ≡ some v
unfolding parse_ipv4
parse_ipv4-dotted v h =
    let value : (((v / 2 ^ 24) * 256 + v / 2 ^ 16 % 256) * 256 + v / 2 ^ 8 % 256) * 256 + v % 256
        ≡ v =
      omega arith in
    rw (split-dotted v h) (
      octets_from-quad (v / 2 ^ 24) (v / 2 ^ 16 % 256) (v / 2 ^ 8 % 256) (v % 256) (omega arith)
        (omega arith) (omega arith) (omega arith)
      ∙ ap some value)

octets_from-cons :
    (octet : Text) (rest : List Text) (value v : ℕ)
    → octets_from value (octet ∷ rest) ≡ some v
    → (n : ℕ) × (n < 256) × (octet ≡ octet_text n) × (octets_from (value * 256 + n) rest ≡ some v)
unfolding octets_from
octets_from-cons octet rest value v h = elim (Bool-cases (is_octet octet)) [
  | inl e ↦
      let (small, same) = of_is_octet octet e in (decimal_from 0 octet, small, sym same, rw e at h)
  | inr e ↦ absurd (cc)
]

value_dotted :
    (i j k l v : ℕ)
    → i < 256
    → j < 256
    → k < 256
    → l < 256
    → ((i * 256 + j) * 256 + k) * 256 + l ≡ v
    → (v < 2 ^ 32)
      × (octet_text i ++ b'.' ∷ (octet_text j ++ b'.' ∷ (octet_text k ++ b'.' ∷ octet_text l))
          ≡ dotted v)
unfolding dotted
value_dotted i j k l v i_lt j_lt k_lt l_lt e =
    let ei : v / 2 ^ 24 ≡ i = omega arith in
    let ej : v / 2 ^ 16 % 256 ≡ j = omega arith in
    let ek : v / 2 ^ 8 % 256 ≡ k = omega arith in
    let el : v % 256 ≡ l = omega arith in (omega arith, cc)

quad :
    (octets : List Text) (v : ℕ)
    → (length octets == 4) ≡ true
    → octets_from 0 octets ≡ some v
    → (v < 2 ^ 32) × (join b'.' octets ≡ dotted v)
quad (a ∷ b ∷ c ∷ d ∷ []) v four h =
    let (i, i_lt, a_is, h1) = octets_from-cons a _ _ v h in
    let (j, j_lt, b_is, h2) = octets_from-cons b _ _ v h1 in
    let (k, k_lt, c_is, h3) = octets_from-cons c _ _ v h2 in
    let (l, l_lt, d_is, h4) = octets_from-cons d _ _ v h3 in
    let e : (((0 * 256 + i) * 256 + j) * 256 + k) * 256 + l ≡ v =
      unfold octets_from in ground arith in
    let (small, same) = value_dotted i j k l v i_lt j_lt k_lt l_lt (omega arith) in (small, cc)
quad [] v four h = cc
quad (_ ∷ []) v four h = cc
quad (_ ∷ _ ∷ []) v four h = cc
quad (_ ∷ _ ∷ _ ∷ []) v four h = cc
quad (_ ∷ _ ∷ _ ∷ _ ∷ _ ∷ _) v four h = ground arith

-- A text reads as an IPv4 address exactly when it is the canonical dotted quad of a 32-bit value,
-- and it then reads as that value: no other spelling (octal, shortened, padded) is accepted.
pub parse_ipv4_iff :
    (text : Text) (v : ℕ) → (parse_ipv4 text ≡ some v) ↔ ((v < 2 ^ 32) × (text ≡ dotted v))
unfolding parse_ipv4
parse_ipv4_iff text v = (
  λ h. elim (Bool-cases (length (split b'.' text) == 4)) [
    | inl four ↦
        let (small, same) = quad (split b'.' text) v four (rw four at h) in
        (small, sym (join-split b'.' text) ∙ same)
    | inr other ↦ absurd (cc)
  ],
  λ (small, same). rw same (parse_ipv4-dotted v small),
)
