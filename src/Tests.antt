-- ===== src/Tests.antt =====
-- Concrete inputs: runs of the model, and the theorems at inputs that meet their hypotheses.
mod Samples
mod Rsg
mod Lltc
mod Graph
mod Sdatp
mod Pdc
mod R2t
mod Routes
mod Messages
mod Heap
mod Rings
mod Manager
