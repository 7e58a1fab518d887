-- ===== src/Singbox/Core/Removal.antt =====
-- core/singboxcore/core.go: what RemoveGroup leaves.
use proxy_hub.Singbox.Manager.{Manager}
use proxy_hub.Singbox.Group.State.{Group}
use proxy_hub.Singbox.Core.State.{Core}
