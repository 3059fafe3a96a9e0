-- ===== src/HttpApi/Options/Shipping.antt =====
-- The sink that an administrator saves is the sink that the trail is shipped to
-- (server/internal/httpapi/settings_handlers.go over settings/settings.go and audit/manager.go).
use kubby.Store.Db.{Db}
use kubby.Audit.Manager.{Manager}
use kubby.Settings.Service.{Service}
