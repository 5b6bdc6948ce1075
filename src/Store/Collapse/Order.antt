-- ===== src/Store/Collapse/Order.antt =====
-- About laterIssuance of internal/store/collapse.go, as an order.
use seestorm_ingest.Base.{◌≡◌, true, false, arith}
use seestorm_ingest.Base.Bytes.{bytes_lt_irrefl, bytes_lt_trans, bytes_lt_total}
use seestorm_ingest.Store.Active.{ActiveAlert}
use seestorm_ingest.Store.Collapse.{later_issuance}

pub later_issuance_irrefl : (a : ActiveAlert) → later_issuance a a ≡ false
unfolding later_issuance
later_issuance_irrefl a = ground (arith, bytes_lt_irrefl a.nws_id)

-- A later issuance than a later one is a later one.
pub later_issuance_trans :
    (a b c : ActiveAlert)
    → later_issuance a b ≡ true
    → later_issuance b c ≡ true
    → later_issuance a c ≡ true
unfolding later_issuance
later_issuance_trans a b c p q = ground (arith, bytes_lt_trans c.nws_id b.nws_id a.nws_id)

-- Two alerts neither of which is the later issuance agree in effective time, expiry and message id.
pub later_issuance_total :
    (a b : ActiveAlert)
    → later_issuance a b ≡ false
    → later_issuance b a ≡ false
    → (a.effective_at ≡ b.effective_at) × (a.expires_at ≡ b.expires_at) × (a.nws_id ≡ b.nws_id)
unfolding later_issuance
later_issuance_total a b p q = ground (arith, bytes_lt_total a.nws_id b.nws_id)
