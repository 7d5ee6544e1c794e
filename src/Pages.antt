-- ===== src/Pages.antt =====
-- The other fleet pages: web/src/pages/Storage.tsx, Nodes.tsx, Templates.tsx and the totals of
-- Overview.tsx, with the bars of web/src/components/ui.tsx that they draw.
pub mod Storage
pub mod Nodes
pub mod Bars
pub mod Templates
pub mod Overview
pub mod Tests
