-- ===== src/Pthread.antt =====
-- src/pthread_hooks and src/policies: the calls that are intercepted, the policy that decides on
-- them, and the original functions that it calls.
pub mod Calls
pub mod Linker
pub mod Policy
pub mod Hooks
