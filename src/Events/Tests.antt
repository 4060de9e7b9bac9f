-- ===== src/Events/Tests.antt =====
-- The handler table on concrete descriptors; a handler is a number here.
use dreamboat_rpc.Prelude.{ℕ, none}
use dreamboat_rpc.Events.{Manager}

abbrev no_handlers : Manager ℕ
no_handlers i = none
