-- ===== src/Consensus/Rounds.antt =====
-- Votes and a new round of blockchain/consensus.go.
