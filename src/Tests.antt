-- ===== src/Tests.antt =====
-- Concrete inputs for the theorems, and what the definitions compute on them.
mod OnSectors
mod OnFiles
mod OnQueues
mod OnStorage
mod OnRemove
mod OnServer
mod OnRequests
mod OnCalls
mod OnClient
