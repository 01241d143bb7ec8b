-- ===== src/Worker.antt =====
-- What one worker guarantees while other processes commit between its transactions.
pub mod Rely
pub mod Fuel
pub mod Rounds
pub mod Race
pub mod Loop
pub mod Outcome
pub mod Run
pub mod Guarantee
pub mod Others
pub mod Failures
pub mod Whole
pub mod Task
pub mod Workbook
pub mod LostClaim
