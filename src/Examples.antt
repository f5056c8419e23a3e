-- ===== src/Examples.antt =====
-- Concrete runs of the model and the theorems at concrete inputs.
pub mod Setup
pub mod Runs
pub mod Tables
pub mod Traffic
pub mod Wire
pub mod Stream
pub mod Start
pub mod Session
pub mod Quit
pub mod Program
pub mod TcpProgram
