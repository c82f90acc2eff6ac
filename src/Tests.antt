-- ===== src/Tests.antt =====
-- Runs of the definitions, and the theorems at concrete inputs.
-- No code of the repository is modelled here.
pub mod Data
mod Rules
mod Loading
mod Folding
mod Plans
mod Trees
mod Lexing
mod Contradictions
mod Parsing
mod Wire
mod Work
mod Ordering
