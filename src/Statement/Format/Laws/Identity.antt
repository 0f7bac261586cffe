-- ===== src/Statement/Format/Laws/Identity.antt =====
-- The identifier of an agent in the format `ids`.
use xapi_lrs.Prelude.{
  String, concat, ◌+◌, ◌=ℕ◌, ◌≡◌, refl, sym, ◌∙◌, Bool, true, false, not, ◌&&◌, ◌||◌, Option, none,
  some, arith, Bool-cases, inl, inr, if◌then◌else◌,
}
use xapi_lrs.Json.{Json, Fields, null, bool, num, str, arr, obj, get, truthy, display_option}
use xapi_lrs.Http.{Result, ok, err, http}
use xapi_lrs.Agent.{canonical_agent_ifi, ifi_count, one_if, account_of}
use xapi_lrs.Statement.Format.{not_null, agent_with, strip_agent, strip_members}

-- no identifier of the agent is an empty text, a zero or false
abbrev pub is_proper : Option Json → Bool
is_proper v = not (not_null v) || truthy v

abbrev pub HasProperIfi : Fields → Type 0
HasProperIfi o =
    (is_proper (get "mbox" o) ≡ true)
    × (is_proper (get "mbox_sha1sum" o) ≡ true)
    × (is_proper (get "openid" o) ≡ true)
    × (is_proper (get "account" o) ≡ true)

-- the identifier by what is read of an agent
abbrev ifi_of : (mb sh op ac : Option Json) → Result String
ifi_of mb sh op ac =
    if not (one_if (truthy mb) + one_if (truthy sh) + one_if (truthy op) + one_if (truthy ac) =ℕ 1)
    then err (http 400 "Agent must have exactly one IFI (mbox, mbox_sha1sum, openid, or account)")
    else if truthy mb
    then ok (concat "mbox::" (display_option mb))
    else if truthy sh
    then ok (concat "mbox_sha1sum::" (display_option sh))
    else if truthy op
    then ok (concat "openid::" (display_option op))
    else account_of ac

canonical_agent_ifi-reads :
    (o : Fields)
    → canonical_agent_ifi o
      ≡ ifi_of (get "mbox" o) (get "mbox_sha1sum" o) (get "openid" o) (get "account" o)
unfolding canonical_agent_ifi ifi_count
canonical_agent_ifi-reads o = refl

-- what an agent in the format `ids` has of each identifier
abbrev if_some : Bool → Option Json → Option Json
if_some true v = v
if_some false v = none

abbrev kept_ifi : (mb sh op ac : Option Json) → Result String
kept_ifi mb sh op ac =
    ifi_of (if_some (not_null mb) mb) (if_some (not (not_null mb) && not_null sh) sh)
      (if_some (not (not_null mb) && (not (not_null sh) && not_null op)) op)
      (if_some (not (not_null mb) && (not (not_null sh) && (not (not_null op) && not_null ac))) ac)

get-mbox :
    (o : Fields) (m : Option Json)
    → get "mbox" (agent_with o m) ≡ if_some (not_null (get "mbox" o)) (get "mbox" o)
unfolding get
get-mbox o m = ground arith

get-sha :
    (o : Fields) (m : Option Json)
    → get "mbox_sha1sum" (agent_with o m)
      ≡ if_some
          (not (not_null (get "mbox" o)) && not_null (get "mbox_sha1sum" o))
          (get "mbox_sha1sum" o)
unfolding get
get-sha o m = ground arith

get-openid :
    (o : Fields) (m : Option Json)
    → get "openid" (agent_with o m)
      ≡ if_some
          (not (not_null (get "mbox" o))
            && (not (not_null (get "mbox_sha1sum" o)) && not_null (get "openid" o)))
          (get "openid" o)
unfolding get
get-openid o m = ground arith

get-account :
    (o : Fields) (m : Option Json)
    → get "account" (agent_with o m)
      ≡ if_some
          (not (not_null (get "mbox" o))
            && (not (not_null (get "mbox_sha1sum" o))
                && (not (not_null (get "openid" o)) && not_null (get "account" o))))
          (get "account" o)
unfolding get
get-account o m = ground arith

canonical_agent_ifi-agent_with :
    (o : Fields) (m : Option Json)
    → canonical_agent_ifi (agent_with o m)
      ≡ kept_ifi (get "mbox" o) (get "mbox_sha1sum" o) (get "openid" o) (get "account" o)
canonical_agent_ifi-agent_with o m =
    canonical_agent_ifi-reads (agent_with o m)
    ∙ rw (get-mbox o m, get-sha o m, get-openid o m, get-account o m) refl

not_null_of_truthy : (v : Option Json) → truthy v ≡ true → not_null v ≡ true
not_null_of_truthy none h = absurd (cc)
not_null_of_truthy (some null) h = absurd (cc)
not_null_of_truthy (some (bool b)) h = refl
not_null_of_truthy (some (num t)) h = refl
not_null_of_truthy (some (str s)) h = refl
not_null_of_truthy (some (arr vs)) h = refl
not_null_of_truthy (some (obj o)) h = refl

null_of_falsy : (v : Option Json) → is_proper v ≡ true → truthy v ≡ false → not_null v ≡ false
null_of_falsy v p h = ground arith

kept_ifi-ifi_of :
    (mb sh op ac : Option Json) (ifi : String)
    → is_proper mb ≡ true
    → is_proper sh ≡ true
    → is_proper op ≡ true
    → is_proper ac ≡ true
    → ifi_of mb sh op ac ≡ ok ifi
    → kept_ifi mb sh op ac ≡ ok ifi
kept_ifi-ifi_of mb sh op ac ifi p₁ p₂ p₃ p₄ h = elim (Bool-cases (truthy mb)) [
  | inl t₁ ↦ rw (not_null_of_truthy mb t₁, t₁) (ground arith)
  | inr f₁ ↦ elim (Bool-cases (truthy sh)) [
    | inl t₂ ↦ rw (null_of_falsy mb p₁ f₁, not_null_of_truthy sh t₂, t₂) (ground arith)
    | inr f₂ ↦ elim (Bool-cases (truthy op)) [
      | inl t₃ ↦
          rw (null_of_falsy mb p₁ f₁, null_of_falsy sh p₂ f₂, not_null_of_truthy op t₃, t₃)
            (ground arith)
      | inr f₃ ↦ elim (Bool-cases (truthy ac)) [
        | inl t₄ ↦
            rw
              (
                null_of_falsy mb p₁ f₁,
                null_of_falsy sh p₂ f₂,
                null_of_falsy op p₃ f₃,
                not_null_of_truthy ac t₄,
                t₄,
              )
              (ground arith)
        | inr f₄ ↦ absurd (cc (rw (f₁, f₂, f₃, f₄) at h))
      ]
    ]
  ]
]

-- An agent that has an identifier, and none of whose identifiers is an empty text, 0 or false, has
-- the same in the format `ids`.
pub strip_agent-canonical_agent_ifi :
    (o : Fields) (ifi : String)
    → canonical_agent_ifi o ≡ ok ifi
    → HasProperIfi o
    → (a : Fields) × (strip_agent (obj o) ≡ obj a) × (canonical_agent_ifi a ≡ ok ifi)
unfolding strip_agent
strip_agent-canonical_agent_ifi o ifi h (p₁, p₂, p₃, p₄) = (
  agent_with o (strip_members o),
  refl,
  canonical_agent_ifi-agent_with o (strip_members o)
      ∙ kept_ifi-ifi_of (get "mbox" o) (get "mbox_sha1sum" o) (get "openid" o) (get "account" o) ifi
          p₁ p₂ p₃ p₄ (sym (canonical_agent_ifi-reads o) ∙ h),
)
