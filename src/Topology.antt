-- ===== src/Topology.antt =====
-- src/utils/reeact_topology.c: the topology of the machine, from sysfs or a configuration file.
pub mod Outcome
pub mod Machine
pub mod Sysfs
pub mod Conf
pub mod Marking
pub mod Cores
pub mod Sockets
pub mod Seats
pub mod Detection
pub mod Choice
pub mod File
pub mod Examples
pub mod Double
