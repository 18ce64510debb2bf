-- ===== src/Platform.antt =====
-- Everything that the program calls and the repository does not hold, in one parameter, and the
-- actions of the services over it.
pub mod Reply
pub mod Amounts
pub mod Updates
pub mod Runtime
pub mod Database
use Amounts.{Decimals}
use Runtime.{Host}
use Database.{Gorm}

pub record Platform : Type 1 where
  pub decimals : Decimals
  pub open decimals use *
  pub host : Host Decimal
  pub open host use *
  pub gorm : Gorm Decimal round
  pub open gorm use *
