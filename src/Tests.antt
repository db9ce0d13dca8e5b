-- ===== src/Tests.antt =====
-- The code run on concrete inputs, where the hypotheses of the theorems hold.
mod Toys
mod Rounds
mod Training
mod Shares
mod Budgets
mod Policies
mod Stores
mod Limits
mod Platforms
mod Figures
mod Learning
mod Databases
mod Endpoints
