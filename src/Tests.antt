-- ===== src/Tests.antt =====
-- Runs of the code of src/, include/ and user/, and instances of the theorems.
mod BoardTests
mod EngineTests
mod SystemTests
mod LearnerTests
mod NegamaxTests
mod CoroTests
mod TerminalTests
mod MctsTests
mod AgentsTests
mod UserTests
