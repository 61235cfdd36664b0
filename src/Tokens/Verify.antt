-- ===== src/Tokens/Verify.antt =====
-- internal/synctoken/synctoken.go: what `Verify` accepts.
use mathlib.Core.List.{List, [], ◌∷◌, ◌++◌, append_assoc}
use mathlib.Core.Path.{◌≡◌, refl, sym, ap, subst, ◌∙◌}
use nit.Base.{
  ◌≢◌, ◌⊎◌, ℕ, some, some-injective, GoString, split, ok, err, ok-injective, All, Option-cases,
  Result-cases, inl, inr, arith, str_discrete, ◌==◌, if◌then◌else◌,
}
use nit.Policy.Identity.{default_tenant}
use nit.Tokens.{
  Codec, CodecLaws, TokenPayload, bad_signature, Signer, token_version, legacy_version, mac_with,
  dotted, issued, sign, key_of_version, read_body, verify_parts, verify,
}
use nit.Tokens.Split.{join, join-split, split-part, split-last}

abbrev IsPlain : GoString → Type 0
IsPlain a = All (λ x. x ≢ 46) a

split-dotted :
    (v e m : GoString)
    → IsPlain v
    → IsPlain e
    → IsPlain m
    → split (dotted (dotted v e) m) 46 ≡ v ∷ e ∷ m ∷ []
split-dotted v e m hv he hm =
    rw
      (
        append_assoc v (46 ∷ e) (46 ∷ m),
        split-part 46 v (e ++ 46 ∷ m) hv,
        split-part 46 e m he,
        split-last 46 m hm,
      )
      refl

token_version-IsPlain : IsPlain token_version
token_version-IsPlain = ((λ h. omega arith), ((λ h. omega arith), ((λ h. omega arith), tt)))

module _ (c : Codec) (laws : CodecLaws c) where
  mac_with-IsPlain : (key message : GoString) → IsPlain (mac_with c key message)
  mac_with-IsPlain key message = laws.encode_plain (c.hmac key message)

  -- What `Sign` returns, part by part.
  sign_lem :
      (now : ℕ) (s : Signer) (p : TokenPayload) (body : GoString)
      → c.marshal (issued now p) ≡ some body
      → sign c now s p
        ≡ ok (
            dotted
              (dotted token_version (c.encode body))
              (mac_with c s.key (dotted token_version (c.encode body))))
  unfolding sign
  sign_lem now s p body e = rw (e, sign) refl

  verify_lem :
      (s : Signer) (body : GoString) (mac : GoString)
      → IsPlain mac
      → verify c s (dotted (dotted token_version (c.encode body)) mac)
        ≡ verify_parts c s (token_version ∷ c.encode body ∷ mac ∷ [])
  unfolding verify
  verify_lem s body mac plain = ap (verify_parts c s) (
      split-dotted token_version (c.encode body) mac token_version-IsPlain (laws.encode_plain body)
        plain)

  verify_parts_lem :
      (s : Signer) (body mac : GoString)
      → verify_parts c s (token_version ∷ body ∷ mac ∷ []) ≡ (
          if mac == mac_with c s.key (dotted token_version body)
          then read_body c body
          else err bad_signature)
  unfolding verify_parts key_of_version str_discrete
  verify_parts_lem s body mac = refl

  -- The MACs of different messages or keys stay different when they are encoded.
  encode-injective : (a b : GoString) → c.encode a ≡ c.encode b → a ≡ b
  encode-injective a b e =
      some-injective (sym (laws.decode_encode a) ∙ ap c.decode e ∙ laws.decode_encode b)

  -- A token that one signer minted is refused with a bad signature by a signer with another key,
  -- as long as no message has the same MAC under both keys.
  pub verify-foreign :
      (now : ℕ) (s other : Signer) (p : TokenPayload) (token : GoString)
      → ((m : GoString) → c.hmac s.key m ≢ c.hmac other.key m)
      → sign c now s p ≡ ok token
      → verify c other token ≡ err bad_signature
  unfolding sign
  verify-foreign now s other p token apart signed = elim (Option-cases (c.marshal (issued now p))) [
    | inl e ↦ absurd (let k = rw (e, sign) at signed in cc)
    | inr (body, e) ↦
        let head = dotted token_version (c.encode body) in
        let same = ok-injective (sym signed ∙ sign_lem now s p body e) in
        let differ = apart head in
        let injective = encode-injective (c.hmac s.key head) (c.hmac other.key head) in
        ap (verify c other) same
        ∙ verify_lem other body _ (mac_with-IsPlain s.key head)
        ∙ verify_parts_lem other _ _
        ∙ ground arith
  ]

-- A token that the holder of the signer's keys signed, and the payload that it carries: it has the
-- current version and the tenant's key, or the old version and the root's, for the default tenant.
pub record IsSignedBy (c : Codec) (s : Signer) (token : GoString) (p : TokenPayload) : Type 0 where
  pub version : GoString
  pub key : GoString
  pub body : GoString
  pub has_key :
      ((version ≡ token_version) × (key ≡ s.key))
      ⊎ ((version ≡ legacy_version) × (key ≡ s.root) × (s.tenant ≡ default_tenant))
  pub spelled : token ≡ dotted (dotted version body) (mac_with c key (dotted version body))
  pub carries : read_body c body ≡ ok p

key_of_version_cases :
    (s : Signer) (version key : GoString)
    → key_of_version s version ≡ ok key
    → ((version ≡ token_version) × (key ≡ s.key))
      ⊎ ((version ≡ legacy_version) × (key ≡ s.root) × (s.tenant ≡ default_tenant))
unfolding key_of_version
key_of_version_cases s version key e = ground arith

verify_parts-IsSignedBy :
    (c : Codec) (s : Signer) (parts : List GoString) (p : TokenPayload)
    → verify_parts c s parts ≡ ok p
    → IsSignedBy c s (join 46 parts) p
unfolding verify_parts join
verify_parts-IsSignedBy c s [] p e = cc
verify_parts-IsSignedBy c s (v ∷ []) p e = cc
verify_parts-IsSignedBy c s (v ∷ b ∷ []) p e = cc
verify_parts-IsSignedBy c s (v ∷ b ∷ m ∷ x ∷ xs) p e = cc
verify_parts-IsSignedBy c s (v ∷ b ∷ m ∷ []) p e = elim (Result-cases (key_of_version s v)) [
  | inl (fault, k) ↦ absurd (let e' = rw (k, verify_parts) at e in cc)
  | inr (key, k) ↦
      let accepted = rw (k, verify_parts) at e in
      let same : (m ≡ mac_with c key (dotted v b)) × (read_body c b ≡ ok p) = ground arith in
      record {
        version = v;
        key = key;
        body = b;
        has_key = key_of_version_cases s v key k;
        spelled = rw (same.0) (sym (append_assoc v (46 ∷ b) (46 ∷ mac_with c key (dotted v b))));
        carries = same.1;
      }
]

-- Every token that `Verify` accepts was signed for its tenant: the token consists of a version, a
-- body and the MAC of the two, under the tenant's own key if the version is the current one, and
-- under the root's key only if it is the old version and the tenant the default one; and the body
-- is the encoding of the payload that is returned.
pub verify-IsSignedBy :
    (c : Codec) (s : Signer) (token : GoString) (p : TokenPayload)
    → verify c s token ≡ ok p
    → IsSignedBy c s token p
unfolding verify
verify-IsSignedBy c s token p e =
    subst (λ t. IsSignedBy c s t p) (join-split 46 token)
      (verify_parts-IsSignedBy c s (split token 46) p e)
