-- ===== src/Examples/Witnesses.antt =====
-- The theorems at concrete inputs, one module for each part of the program.
mod OfDatabase
mod OfContract
mod OfService
mod OfHandler
mod OfDrains
mod OfMessages
mod OfSession
mod OfServer
mod OfUtilities
mod OfPresence
mod OfSystem
mod OfLog
mod OfProgram
