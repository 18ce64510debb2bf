-- ===== src/Example.antt =====
-- A platform that a program can run on, with which the theorems are applied to concrete inputs:
-- decimals are integers, and the database is a record of lists.
mod Int
mod Tables
mod Filters
mod Memory
mod Machine
mod Unary
mod Signing
mod LedgerTests
mod Accepting
mod Assign
mod TokenTests
mod AuthTests
mod Web
mod RecordTests
mod ReportTests
mod WorkerTests
mod LimitTests
mod ServerTests
mod StartTests
