-- ===== src/Service/Health/Errors.antt =====
-- flush of health_batcher.go when the database fails.
use proxy_hub.Singbox.Time.{Time}
use proxy_hub.Service.Health.State.{Batcher}
