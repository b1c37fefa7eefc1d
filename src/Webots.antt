-- ===== src/Webots.antt =====
-- carpayin-webots/controllers: the simulated barriers and the simulated car.
pub mod Barrier
pub mod Vehicle
mod Examples
use car_pay_in.Base.{ℕ}
