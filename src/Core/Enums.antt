-- ===== src/Core/Enums.antt =====
-- packages/core/src/enums.ts. A confidence is a number of hundredths: 0.35 is 35.
use ad_link.Common.{ℕ, Bool, true, false}

pub data Role : Type 0 where
  owner admin buyer client : Role

pub data AdProvider : Type 0 where
  meta google tiktok : AdProvider

pub data CrmProvider : Type 0 where
  bitrix24 amocrm hubspot salesforce : CrmProvider

-- What every CRM stage maps to.
pub data CanonicalStatus : Type 0 where
  lead qualified won lost ignore : CanonicalStatus

pub data LeadSource : Type 0 where
  meta_lead_ad website dm crm : LeadSource

pub data IdentifierType : Type 0 where
  phone email : IdentifierType

pub data TouchType : Type 0 where
  impression click lead : TouchType

pub data MatchMethod : Type 0 where
  leadgen_id fbclid phone email utm fuzzy manual : MatchMethod

-- The default confidence of a method.
abbrev pub match_confidence : MatchMethod → ℕ
match_confidence leadgen_id = 100
match_confidence fbclid = 100
match_confidence phone = 95
match_confidence email = 90
match_confidence utm = 50
match_confidence fuzzy = 35
match_confidence manual = 100

-- Below this a match is parked in the review queue.
abbrev pub review_threshold : ℕ
review_threshold = 70

pub data MatchStatus : Type 0 where
  matched unmatched review rejected : MatchStatus

pub data ConversionType : Type 0 where
  lead qualified_lead purchase : ConversionType

pub data ConversionState : Type 0 where
  pending sent accepted rejected : ConversionState

pub data SyncState : Type 0 where
  ok running failed : SyncState

-- `===` on the enums, as far as the source compares them.
abbrev pub is_won : CanonicalStatus → Bool
is_won won = true
is_won _ = false

abbrev pub is_qualified : CanonicalStatus → Bool
is_qualified qualified = true
is_qualified _ = false

abbrev pub is_matched : MatchStatus → Bool
is_matched matched = true
is_matched _ = false

abbrev pub is_review : MatchStatus → Bool
is_review review = true
is_review _ = false

abbrev pub is_unmatched : MatchStatus → Bool
is_unmatched unmatched = true
is_unmatched _ = false

abbrev pub is_pending : ConversionState → Bool
is_pending pending = true
is_pending _ = false
