-- ===== src/Examples.antt =====
-- Runs of the model on concrete inputs: the theorems applied where their conditions hold.
mod Data
mod Pdu
mod Queue
mod Window
mod Sender
mod Receiver
mod Opening
mod System
mod Client
mod Poll
mod Address
mod Listen
mod Both
mod Session
mod Sample
