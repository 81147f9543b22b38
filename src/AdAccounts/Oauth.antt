-- ===== src/AdAccounts/Oauth.antt =====
-- The token exchange of apps/api/src/ad-accounts/ad-accounts.service.ts. Meta's answers are
-- parameters: each request is refused (`res.ok` is false) or answered with an optional text.
use ad_link.Common.{
  Bool, ◌&&◌, Option, none, some, String, List, [], ◌≡◌, ◌≢◌, ◌⊎◌, inl, inr, refl, sym, ◌∙◌, subst,
  arith, truthy, get_or, if◌then◌else◌, Bool-cases, string_eq, ◌==◌, eq_iff,
}
use ad_link.AdAccounts.{MetaRawAccount}

pub data Response {ℓ} (A : Type ℓ) : Type ℓ where
  refused : Response A
  answered : A → Response A

-- The settings that the exchange reads.
pub record Settings : Type 0 where
  pub app_id : Option String
  pub app_secret : Option String
  pub redirect_uri : Option String

-- The two requests: of a token for the code, and of a long-lived token for that one.
pub record Graph : Type 0 where
  pub access_token : String → Response (Option String)
  pub long_lived : String → Response (Option String)
  pub ad_accounts : String → Response (Option (List MetaRawAccount))

pub data Failure : Type 0 where
  not_configured exchange_failed no_token accounts_failed : Failure

pub data Result {ℓ} (A : Type ℓ) : Type ℓ where
  ok : A → Result A
  err : Failure → Result A

infixl 5 ◌>>=◌
abbrev pub ◌>>=◌ {ℓ κ} : {A : Type ℓ} {B : Type κ} → Result A → (A → Result B) → Result B
ok a >>= f = f a
err e >>= f = err e

pub Result-cases {ℓ} :
    {A : Type ℓ} (r : Result A) → ((a : A) × (r ≡ ok a)) ⊎ ((e : Failure) × (r ≡ err e))
Result-cases (ok a) = inl (a, refl)
Result-cases (err e) = inr (e, refl)

abbrev pub is_configured : Settings → Bool
is_configured settings =
    truthy settings.app_id && (truthy settings.app_secret && truthy settings.redirect_uri)

-- What the first request gives: an answer without a token, or with an empty one, is an error.
unfoldable pub short_token : Response (Option String) → Result String
short_token refused = err exchange_failed
short_token (answered none) = err no_token
short_token (answered (some token)) = if token == "" then err no_token else ok token

-- `llRes.ok ? access_token : short`, then `long ?? short`
unfoldable pub long_token : String → Response (Option String) → String
long_token short refused = short
long_token short (answered long) = get_or long short

-- `exchangeMetaCode`
unfoldable pub exchange_meta_code : Settings → Graph → String → Result String
unfolding short_token long_token
exchange_meta_code settings graph code =
    if is_configured settings
    then (short_token (graph.access_token code) >>= λ short.
        ok (long_token short (graph.long_lived short)))
    else err not_configured

-- `listMetaAccounts`
unfoldable pub list_meta_accounts : Graph → String → Result (List MetaRawAccount)
list_meta_accounts graph token = elim (graph.ad_accounts token) [
  | refused ↦ err accounts_failed
  | answered rows ↦ ok (get_or rows [])
]

long_token-cases :
    (short : String) (r : Response (Option String))
    → (r ≡ answered (some (long_token short r))) ⊎ (long_token short r ≡ short)
unfolding long_token
long_token-cases short refused = inr refl
long_token-cases short (answered none) = inr refl
long_token-cases short (answered (some long)) = inl refl

short_token_ok :
    (r : Response (Option String)) (short : String)
    → short_token r ≡ ok short
    → (r ≡ answered (some short)) × (short ≢ "")
unfolding short_token
short_token_ok refused short h = absurd (cc h)
short_token_ok (answered none) short h = absurd (cc h)
short_token_ok (answered (some t)) short h = elim (Bool-cases (t == "")) [
  | inl e ↦ absurd (cc (rw e at h))
  | inr e ↦ (ground arith, λ f. ground (arith, eq_iff t ""))
]

>>=-eq-ok :
    {A B : Type 0} (m : Result A) (f : A → B) (b : B)
    → (m >>= λ a. ok (f a)) ≡ ok b
    → (a : A) × (m ≡ ok a) × (f a ≡ b)
>>=-eq-ok (ok a) f b h = (a, refl, cc h)
>>=-eq-ok (err e) f b h = absurd (cc h)

-- A token comes out of the exchange only if Meta answered the code with a token that is not empty;
-- it is the long-lived one where Meta gave one, and else that first token.
pub exchange_meta_code_ok :
    (settings : Settings) (graph : Graph) (code token : String)
    → exchange_meta_code settings graph code ≡ ok token
    → (short : String) × (graph.access_token code ≡ answered (some short))
      × (short ≢ "")
      × ((graph.long_lived short ≡ answered (some token)) ⊎ (token ≡ short))
unfolding exchange_meta_code
exchange_meta_code_ok settings graph code token h = elim (Bool-cases (is_configured settings)) [
  | inr e ↦ absurd (cc (rw e at h))
  | inl e ↦
      let (short, asked, got) =
        >>=-eq-ok (short_token (graph.access_token code))
          (λ short. long_token short (graph.long_lived short)) token (rw e at h) in
      let (answer, filled) = short_token_ok (graph.access_token code) short asked in
      (
        short,
        answer,
        filled,
        elim (long_token-cases short (graph.long_lived short)) [
          | inl long ↦ inl (subst (λ t. graph.long_lived short ≡ answered (some t)) got long)
          | inr same ↦ inr (sym got ∙ same)
        ],
      )
]
