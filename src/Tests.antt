-- ===== src/Tests.antt =====
-- Concrete inputs of the components, and what the theorems say of them.
mod Databases
mod Drafts
mod Folders
mod Deploys
mod Policies
mod Steps
mod Records
mod Stacks
