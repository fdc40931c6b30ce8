-- ===== src/Examples.antt =====
-- Concrete machines, containers and messages, and the theorems applied to them.
mod Runs
mod Containers
mod Managers
mod Settings
mod Messages
mod Requests
mod Processes
mod Stores
mod Languages
mod Pipeline
mod Arguments
mod Polling
mod Services
mod Routing
mod Preparations
mod Handlers
mod Executions
