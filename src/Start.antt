-- ===== src/Start.antt =====
-- The programs as they are started: the arguments of node/src/main.c, node-manager/src/main.c and
-- main-server/src/main.c, and what the node does before it serves.
pub mod Getopt
pub mod Numbers
pub mod NodeMain
pub mod MainServerMain
pub mod Manager
pub mod Fixed
mod Runs
