-- ===== src/Store/Supersede/Order.antt =====
-- About retireReferenced of internal/store/supersede.go: the groups in another order, since Go walks a
-- map in no fixed one. (Where a statement fails, the pass ends there, and the order decides which groups
-- were retired before.)
use seestorm_ingest.Base.{List}
use seestorm_ingest.Base.Bytes.{Bytes}
use seestorm_ingest.Store.Table.{Table}
