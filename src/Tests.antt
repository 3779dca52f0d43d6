-- ===== src/Tests.antt =====
-- Runs of the model on small inputs, and the theorems at such inputs.
mod Sample
mod Handling
mod Logging
mod Parsing
mod Configuring
mod Routing
mod Refusing
mod Running
mod Serving
mod Posting
mod Proxying
mod Storing
mod Whole
