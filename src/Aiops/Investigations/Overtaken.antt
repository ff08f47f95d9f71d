-- ===== src/Aiops/Investigations/Overtaken.antt =====
-- The feedback of an investigation that is no longer the one selected.
use centos_info_collect.Base.{ℕ_eq}
use centos_info_collect.Aiops.Investigations.{Investigations}
