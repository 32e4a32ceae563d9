-- ===== src/Uri/Text.antt =====
-- The split and the join of a URI are inverse, up to what the split leaves over.
use hemp.Base.{
  ℕ, ◌≡◌, refl, ap, sym, ◌∙◌, ◌⊎◌, inl, inr, Bool, false, not, ◌&&◌, none, some, [], ◌∷◌, ◌++◌,
  arith, append_assoc, append-nil, Option-cases, Bool-cases, ◌==◌,
}
use hemp.Chars.{
  Str, span, span-append, after, after-cons, after_all, after_all-append, is_digit, is_alpha,
}
use hemp.Uri.Split.{
  Uri, wiped, Match, matched, scheme_char, match_scheme, match_user, match_host, match_port,
  match_path, match_query, match_fragment, match_authority, split,
}
use hemp.Uri.Join.{part, authority_text, text}

-- The part between its delimiters and the rest give the source back.
abbrev Gives : Str → Str → Match → Str → Type 0
Gives before behind m s = part before m.0 behind ++ m.1 ≡ s

matched-Gives : (before s p r : Str) → before ++ (p ++ r) ≡ s → Gives before [] (matched s p r) s
unfolding part
matched-Gives before s [] r h = refl
matched-Gives before s (c ∷ p) r h = simp (append-nil, append_assoc) h

closed_by :
    (p rest : Str) {r s : Str} (c : ℕ)
    → p ++ rest ≡ s
    → after c rest ≡ some r
    → (p ++ c ∷ []) ++ r ≡ s
closed_by p rest {r} c h e =
    append_assoc p (c ∷ []) r ∙ ap (λ t. p ++ t) (sym (after-cons c rest e)) ∙ h

match_scheme-Gives : (s : Str) → Gives [] (b':' ∷ []) (match_scheme s) s
unfolding match_scheme part
match_scheme-Gives [] = refl
match_scheme-Gives (c ∷ s) =
    let rest = (span scheme_char s).1 in
    elim (Bool-cases (is_alpha c)) [
      | inr t ↦ rw t
      | inl t ↦ elim (Option-cases (after b':' rest)) [
        | inl e ↦ rw (t, e)
        | inr (r, e) ↦
            rw (t, e)
              (ap (λ w. c ∷ w) (closed_by (span scheme_char s).0 rest b':' (span-append _ s) e))
      ]
    ]

match_user-Gives : (s : Str) → Gives [] (b'@' ∷ []) (match_user s) s
unfolding match_user part
match_user-Gives s =
    let (p, rest) = span (λ c. not (c == b'@')) s in
    elim (Option-cases (after b'@' rest)) [
      | inl e ↦ rw (e, match_user)
      | inr (r, e) ↦ rw (e, match_user) (closed_by p rest b'@' (span-append _ s) e)
    ]

match_host-Gives : (s : Str) → Gives [] [] (match_host s) s
unfolding match_host
match_host-Gives s = matched-Gives [] s _ _ (span-append _ s)

match_path-Gives : (s : Str) → Gives [] [] (match_path s) s
unfolding match_path
match_path-Gives s = matched-Gives [] s _ _ (span-append _ s)

match_port-Gives : (s : Str) → Gives (b':' ∷ []) [] (match_port s) s
unfolding match_port part
match_port-Gives s = elim (Option-cases (after b':' s)) [
  | inl e ↦ rw (e, match_port)
  | inr (r, e) ↦
      rw (e, match_port)
        (matched-Gives (b':' ∷ []) s _ _
          (ap (λ w. b':' ∷ w) (span-append is_digit r) ∙ sym (after-cons b':' s e)))
]

match_query-Gives : (s : Str) → Gives (b'?' ∷ []) [] (match_query s) s
unfolding match_query part
match_query-Gives s = elim (Option-cases (after b'?' s)) [
  | inl e ↦ rw (e, match_query)
  | inr (r, e) ↦
      rw (e, match_query)
        (matched-Gives (b'?' ∷ []) s _ _
          (ap (λ w. b'?' ∷ w) (span-append _ r) ∙ sym (after-cons b'?' s e)))
]

match_fragment-Gives : (s : Str) → Gives (b'#' ∷ []) [] (match_fragment s) s
unfolding match_fragment part
match_fragment-Gives s = elim (Option-cases (after b'#' s)) [
  | inl e ↦ rw (e, match_fragment)
  | inr (r, e) ↦
      rw (e, match_fragment)
        (matched-Gives (b'#' ∷ []) s r []
          (ap (λ w. b'#' ∷ w) (append-nil r) ∙ sym (after-cons b'#' s e)))
]

before : (a x r : Str) {r₁ s : Str} → x ++ r ≡ r₁ → a ++ r₁ ≡ s → (a ++ x) ++ r ≡ s
before a x r h k = append_assoc a x r ∙ ap (λ w. a ++ w) h ∙ k

match_authority-Gives :
    (u : Uri) (s : Str)
    → u.authority ≡ none
    → (authority_text (match_authority u s).0 ++ (match_authority u s).1 ≡ s)
      × ((match_authority u s).0.scheme ≡ u.scheme)
unfolding match_authority authority_text
match_authority-Gives u s h = elim (Option-cases (after_all (b'/' ∷ b'/' ∷ []) s)) [
  | inl e ↦ rw (e, match_authority, h) (refl, refl)
  | inr (r, e) ↦
      let rest = (match_user r).1 in
      let slashes = sym (after_all-append (b'/' ∷ b'/' ∷ []) s e) in
      rw (e, match_authority)
        (
          ap (λ w. b'/' ∷ b'/' ∷ w)
                (before _ _ _
                  (before _ _ _ (match_port-Gives (match_host rest).1) (match_host-Gives rest))
                  (match_user-Gives r))
              ∙ slashes,
          refl,
        )
]

-- Every text is split without loss: the parts joined with their delimiters, and then what the
-- matchers left over, are the text.
pub split-text : (s : Str) → text (split s).0 ++ (split s).1 ≡ s
unfolding split text authority_text
split-text s =
    let r₁ = (match_scheme s).1 in
    let u : Uri = record wiped { scheme = (match_scheme s).0 } in
    let auth = match_authority-Gives u r₁ refl in
    let r₂ = (match_authority u r₁).1 in
    let r₃ = (match_path r₂).1 in
    let r₄ = (match_query r₃).1 in
    rw auth.1 (
      before _ _ _
        (before _ _ _
          (before _ _ _ (before _ _ _ (match_fragment-Gives r₄) (match_query-Gives r₃))
            (match_path-Gives r₂))
          auth.0)
        (match_scheme-Gives s))

-- What can be left over: nothing, a fragment with no text, or a query with no text, and then all
-- that follows it.
abbrev pub Leftover : Str → Type 0
Leftover r = (r ≡ []) ⊎ (r ≡ b'#' ∷ []) ⊎ (r ≡ b'?' ∷ []) ⊎ ((x : Str) × (r ≡ b'?' ∷ b'#' ∷ x))

-- A walk stops at the end or at a character that fails the test.
Stopped : (ℕ → Bool) → Str → Type 0
Stopped p r = (r ≡ []) ⊎ ((c : ℕ) × (x : Str) × (r ≡ c ∷ x) × (p c ≡ false))

span-Stopped : (p : ℕ → Bool) (s : Str) → Stopped p (span p s).1
unfolding span Stopped
span-Stopped p [] = inl refl
span-Stopped p (c ∷ s) = elim (Bool-cases (p c)) [
  | inl t ↦ rw t (span-Stopped p s)
  | inr f ↦ rw f (inr (c, s, refl, f))
]

matched_rest : (s p r : Str) → p ++ r ≡ s → (matched s p r).1 ≡ r
matched_rest s [] r h = sym h
matched_rest s (c ∷ p) r h = refl

-- Only a fragment is left.
abbrev AtFragment : Str → Type 0
AtFragment r = (r ≡ []) ⊎ ((x : Str) × (r ≡ b'#' ∷ x))

fragment-Leftover : (r : Str) → AtFragment r → Leftover (match_fragment r).1
unfolding match_fragment after
fragment-Leftover [] h = inl refl
fragment-Leftover (c ∷ []) (inl e) = inl (ground arith)
fragment-Leftover (c ∷ d ∷ x) (inl e) = inl (ground arith)
fragment-Leftover (c ∷ []) (inr (x, e)) = inr (inl (ground arith))
fragment-Leftover (c ∷ d ∷ y) (inr (x, e)) = inl (ground arith)

at_fragment : (s : Str) → AtFragment (span (λ c. not (c == b'#')) s).1
unfolding Stopped
at_fragment s = elim (span-Stopped (λ c. not (c == b'#')) s) [
  | inl e ↦ inl e
  | inr (c, x, e, f) ↦ inr (x, e ∙ ap (λ d. d ∷ x) (ground arith))
]

query_rest :
    (q p r : Str)
    → p ++ r ≡ q
    → AtFragment r
    → Leftover (match_fragment (matched (b'?' ∷ q) p r).1).1
unfolding match_fragment after
query_rest q [] r h (inl e) = inr (inr (inl (ap (λ w. b'?' ∷ w) (sym h ∙ e))))
query_rest q [] r h (inr (x, e)) = inr (inr (inr (x, ap (λ w. b'?' ∷ w) (sym h ∙ e))))
query_rest q (c ∷ p) r h at = fragment-Leftover r at

-- The rest at a question mark.
query-Leftover : (q : Str) → Leftover (match_fragment (match_query (b'?' ∷ q)).1).1
unfolding match_query after
query-Leftover q = query_rest q _ _ (span-append _ q) (at_fragment q)

split-rest :
    (r : Str)
    → Stopped (λ c. not (c == b'?') && not (c == b'#')) r
    → Leftover (match_fragment (match_query r).1).1
unfolding Stopped
split-rest r (inl e) = rw e (unfold match_query match_fragment after in inl refl)
split-rest r (inr (c, x, e, f)) = elim (Bool-cases (c == b'?')) [
  | inl t ↦ let p : c ≡ b'?' = ground arith in rw (e, p) (query-Leftover x)
  | inr t ↦
      let p : c ≡ b'#' = ground arith in
      rw (e, p) (unfold match_query after in fragment-Leftover (b'#' ∷ x) (inr (x, refl)))
]

-- The split of a text stops early only where the text of a query or of a fragment is empty.
pub split-Leftover : (s : Str) → Leftover (split s).1
unfolding split match_path
split-Leftover s =
    let u : Uri = record wiped { scheme = (match_scheme s).0 } in
    let r₂ = (match_authority u (match_scheme s).1).1 in
    rw (matched_rest r₂ _ _ (span-append _ r₂)) (split-rest _ (span-Stopped _ r₂))
