-- ===== src/Ftp.antt =====
-- The FTP client of INCLUDE/CProtocolFTP.hpp: a queue of commands, a table of transitions driven
-- by the server's replies, and the handlers of the data channel and of the local file.
pub mod State
pub mod Commands
pub mod Transfer
pub mod Machine
pub mod Reply
pub mod Session
pub mod Plan
pub mod Calls
pub mod Replies
pub mod Endings
pub mod Moves
pub mod Transfers
pub mod Login
pub mod Safety
pub mod Order
pub mod Fifo
pub mod Opening
pub mod Pasv
pub mod Blocks
pub mod Passive
pub mod Download
pub mod Showing
pub mod Replay
pub mod Stored
pub mod StoredLate
pub mod Pump
pub mod Upload
pub mod Feeding
pub mod Pieces
pub mod Sent
pub mod Script
pub mod Whole
pub mod Sample
pub mod Later
pub mod ReplyLater
pub mod AnyTime
pub mod Unread
pub mod Sockets
pub mod Stuck
mod Tests
mod SessionTests
mod LateTests
