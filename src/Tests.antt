-- ===== src/Tests.antt =====
-- The theorems at concrete inputs, in an environment of concrete functions.
mod Codec
mod Concrete
mod Data
mod Auth
mod Users
mod Api
mod Ec2
mod Ingestion
mod Aws
mod ObservationCodec
mod CloudWatch
mod Monitoring
mod Migrations
mod Accounts
mod Tokens
