-- ===== src/Organisations/Activation.antt =====
-- The activation that src/services/organisation/organisation.service.ts puts off outside of production.
use hashira_be_railway_deplo.Platform.{Platform}
use hashira_be_railway_deplo.World.{World}
